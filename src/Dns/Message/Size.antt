-- ===== src/Dns/Message/Size.antt =====
-- The packet of a query: what its elements are, and how many they are.
use cppsong.Base.{
  ℕ, ◌+◌, ◌^◌, ◌≤◌, ◌<◌, ◌≡◌, ap, List, [], ◌∷◌, ◌++◌, arith, Bytes, Bool, if◌then◌else◌,
}
use cppsong.Base.Lists.{length, length-append, All, All-append}
use cppsong.Base.Outcome.{ok}
use cppsong.Bytes.Bounds.{IsBytes}
use cppsong.Bytes.Words.{be16}
use cppsong.Dns.Message.{build_dns_query, query_header}
use cppsong.Dns.Message.Name.{IsLabel, join, wire_labels, wire}
use cppsong.Dns.Message.Query.{query_header-bytes, build-wire}
use cppsong.Dns.Message.Qname.{final_dot}

be16-IsBytes : (v : ℕ) → IsBytes (be16 v)
be16-IsBytes v = (omega arith, (omega arith, tt))

joined : (xs ys : Bytes) → IsBytes xs → IsBytes ys → IsBytes (xs ++ ys)
joined xs ys = All-append (λ b. b < 2 ^ 8) xs ys

wire_labels-IsBytes : (ls : List Bytes) → All IsLabel ls → IsBytes (wire_labels ls)
wire_labels-IsBytes [] good = tt
wire_labels-IsBytes (l ∷ ls) (good, others) = (
  omega (arith, good.not_long),
  joined l (wire_labels ls) good.bytes (wire_labels-IsBytes ls others),
)

wire-IsBytes : (ls : List Bytes) → All IsLabel ls → IsBytes (wire ls)
wire-IsBytes ls good =
    joined (wire_labels ls) (0 ∷ []) (wire_labels-IsBytes ls good) (omega arith, tt)

-- A label costs its length byte, which in the text is the dot before it.
length-join :
    (l : Bytes) (ls : List Bytes) → length (wire_labels (l ∷ ls)) ≡ length (join (l ∷ ls)) + 1
length-join l [] = omega (arith, length-append l [])
length-join l (m ∷ ls) = omega (
  arith,
  length-append l (wire_labels (m ∷ ls)),
  length-append l (b'.' ∷ join (m ∷ ls)),
  length-join m ls,
)

length-wire : (ls : List Bytes) → length (wire ls) ≤ length (join ls) + 2
length-wire [] = omega arith
length-wire (l ∷ ls) =
    omega (arith, length-append (wire_labels (l ∷ ls)) (0 ∷ []), length-join l ls)

be16-append : (v : ℕ) (xs : Bytes) → IsBytes xs → IsBytes (be16 v ++ xs)
be16-append v xs all = joined (be16 v) xs (be16-IsBytes v) all

query_header-IsBytes : (id : ℕ) → IsBytes (query_header id)
query_header-IsBytes id =
    let counts = be16 0 ++ (be16 0 ++ be16 0) in
    let fixed = be16 0x0100 ++ (be16 1 ++ counts) in
    rw (query_header-bytes id) (
      be16-append id fixed (
        be16-append 0x0100 (be16 1 ++ counts) (
          be16-append 1 counts
            (be16-append 0 (be16 0 ++ be16 0) (be16-append 0 (be16 0) (be16-IsBytes 0))))))

-- The elements of a query for a domain of bytes are bytes, and they are at most 273, so that the
-- packet fits in a datagram of 512.
pub build_dns_query-IsBytes :
    (id : ℕ) (domain : Bytes) (is_v6 : Bool) (packet : Bytes)
    → IsBytes domain
    → build_dns_query id domain is_v6 ≡ ok packet
    → IsBytes packet × (length packet ≤ 273)
build_dns_query-IsBytes id domain is_v6 packet bytes e =
    let (qname, h, same) = build-wire id domain is_v6 packet bytes e in
    let type_bytes = be16 (if is_v6 then 28 else 1) in
    (
      rw same (
          joined (query_header id) (wire h.labels ++ (type_bytes ++ be16 1))
            (query_header-IsBytes id)
            (joined (wire h.labels) (type_bytes ++ be16 1) (wire-IsBytes h.labels h.good) (
              joined type_bytes (be16 1) (be16-IsBytes (if is_v6 then 28 else 1))
                (be16-IsBytes 1)))),
      omega (
        arith,
        ap length same,
        ap length (query_header-bytes id),
        length-append (query_header id) (wire h.labels ++ (type_bytes ++ be16 1)),
        length-append (wire h.labels) (type_bytes ++ be16 1),
        length-wire h.labels,
        h.short,
        ap length h.text_is,
        length-append (join h.labels ++ final_dot h.dot) (final_dot h.second_dot),
        length-append (join h.labels) (final_dot h.dot),
      ),
    )

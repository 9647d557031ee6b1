-- ===== src/Dns/Message/Query.antt =====
-- `build_dns_query` and `parse_dns_query`: the name is read back from the query.
use cppsong.Base.{
  ℕ, zero, suc, ◌+◌, ◌<◌, ◌≡◌, refl, sym, ap, ◌∙◌, subst, List, [], ◌∷◌, ◌++◌, append_assoc, arith,
  Bytes, Bool, ◌==◌, gt→leb, ge→ltb, if◌then◌else◌, true, false,
}
use cppsong.Base.Lists.{length, length-append, All}
use cppsong.Base.Cursor.{Rest, Rest-append, Rest-skip, Rest-length, at-Rest, string_at-Rest}
use cppsong.Base.Outcome.{ok, >>=-ok}
use cppsong.Bytes.Bounds.{IsBytes}
use cppsong.Bytes.RoundTrip.{write_u16-end}
use cppsong.Bytes.Words.{be16}
use cppsong.Dns.Message.{
  strip_dot, encode_qname, build_dns_query, query_header, parse_labels, parse_dns_query,
}
use cppsong.Dns.Message.Name.{
  IsLabel, join, wire_labels, wire, append_labels, append_labels-nil, length-wire_labels,
}
use cppsong.Dns.Message.Qname.{final_dot}
use cppsong.Dns.Message.Accepts.{Encodes, encode_qname_iff, strip_dot-join}

nonzero_test : (n : ℕ) → 0 < n → (n == 0) ≡ false
nonzero_test n h = ground arith

module _ (packet : Bytes) where
  parse_labels-wire :
      (ls : List Bytes) (fuel pos : ℕ) (acc rest : Bytes)
      → All IsLabel ls
      → Rest packet pos (wire_labels ls ++ 0 ∷ rest)
      → length ls < fuel
      → parse_labels fuel packet pos acc ≡ ok (append_labels acc ls)
  unfolding parse_labels
  parse_labels-wire ls zero pos acc rest good r h = elim h [ ]
  parse_labels-wire [] (suc fuel) pos acc rest good r h =
      rw (gt→leb (length packet) pos (omega (arith, Rest-length r)), at-Rest r)
  parse_labels-wire (l ∷ ls) (suc fuel) pos acc rest (good, others) r h =
      let after = wire_labels ls ++ 0 ∷ rest in
      let here : Rest packet pos (length l ∷ (l ++ after)) =
        subst (λ w. Rest packet pos (length l ∷ w)) (append_assoc l (wire_labels ls) (0 ∷ rest))
          r in
      let text : Rest packet (pos + 1) (l ++ after) = Rest-skip (length l ∷ []) here refl in
      let size = length-append l after in
      rw
        (
          gt→leb (length packet) pos (omega (arith, Rest-length r)),
          at-Rest r,
          nonzero_test (length l) good.not_empty,
          ge→ltb (length packet) (pos + 1 + length l) (omega (arith, Rest-length text)),
          string_at-Rest l after text refl (omega (arith, Rest-length text, good.not_empty)),
        )
        (parse_labels-wire ls fuel (pos + 1 + length l) _ rest others (Rest-skip l text refl)
          (omega arith))

-- The question's name is read back from a query, or from any packet with it behind the header.
pub parse_dns_query-wire :
    (header : Bytes) (ls : List Bytes) (rest : Bytes)
    → length header ≡ 12
    → All IsLabel ls
    → parse_dns_query (header ++ (wire ls ++ rest)) ≡ ok (join ls)
unfolding parse_dns_query
parse_dns_query-wire header ls rest size good =
    let packet = header ++ (wire ls ++ rest) in
    let lengths = length-append header (wire ls ++ rest) in
    let names = length-append (wire ls) rest in
    let labels = length-append (wire_labels ls) (0 ∷ []) in
    let body : Rest packet (length header) (wire_labels ls ++ 0 ∷ rest) =
      subst (Rest packet (length header)) (append_assoc (wire_labels ls) (0 ∷ []) rest)
        (Rest-append header (wire ls ++ rest)) in
    rw (ge→ltb (length packet) 12 (omega arith), ← size)
      (parse_labels-wire packet ls (suc (length packet)) (length header) [] rest good body
          (omega (arith, length-wire_labels ls))
        ∙ ap ok (append_labels-nil ls good))

pub query_header-bytes :
    (id : ℕ)
    → query_header id ≡ be16 id ++ (be16 0x0100 ++ (be16 1 ++ (be16 0 ++ (be16 0 ++ be16 0))))
query_header-bytes id = simp (write_u16-end)

build-bytes :
    (id : ℕ) (domain qname : Bytes) (is_v6 : Bool)
    → encode_qname domain ≡ ok qname
    → build_dns_query id domain is_v6
      ≡ ok (query_header id ++ (qname ++ (be16 (if is_v6 then 28 else 1) ++ be16 1)))
unfolding build_dns_query
build-bytes id domain qname true e = rw e (simp (write_u16-end, append_assoc))
build-bytes id domain qname false e = rw e (simp (write_u16-end, append_assoc))

build-ok :
    (id : ℕ) (domain : Bytes) (is_v6 : Bool) (packet : Bytes)
    → build_dns_query id domain is_v6 ≡ ok packet
    → (qname : Bytes) × (encode_qname domain ≡ ok qname)
unfolding build_dns_query
build-ok id domain is_v6 packet e =
    let (qname, named, _) = >>=-ok (encode_qname domain) _ e in (qname, named)

-- What the packet of a query is made of.
pub build-wire :
    (id : ℕ) (domain : Bytes) (is_v6 : Bool) (packet : Bytes)
    → IsBytes domain
    → build_dns_query id domain is_v6 ≡ ok packet
    → (qname : Bytes) × (h : Encodes domain qname) × (packet
        ≡ query_header id ++ (wire h.labels ++ (be16 (if is_v6 then 28 else 1) ++ be16 1)))
build-wire id domain is_v6 packet bytes e =
    let (qname, named) = build-ok id domain is_v6 packet e in
    let h = (encode_qname_iff domain qname bytes).0 named in
    let question = be16 (if is_v6 then 28 else 1) ++ be16 1 in
    (
      qname,
      h,
      ok_injective (sym e ∙ build-bytes id domain qname is_v6 named)
          ∙ ap (λ t. query_header id ++ (t ++ question)) h.out_is,
    )
  where
    ok_injective : {a b : Bytes} → ok a ≡ ok b → a ≡ b
    ok_injective e = cc

-- A query that `build_dns_query` makes, whatever its id and type, is read by `parse_dns_query` as
-- a name which ends in no dot, and from which the domain asked for differs by at most two final
-- dots.
pub parse_dns_query-build_dns_query :
    (id : ℕ) (domain : Bytes) (is_v6 : Bool) (packet : Bytes)
    → IsBytes domain
    → build_dns_query id domain is_v6 ≡ ok packet
    → (name : Bytes) × (dot : Bool) × (second_dot : Bool) × (parse_dns_query packet ≡ ok name)
      × (strip_dot name ≡ name)
      × (domain ≡ (name ++ final_dot dot) ++ final_dot second_dot)
parse_dns_query-build_dns_query id domain is_v6 packet bytes e =
    let (qname, h, same) = build-wire id domain is_v6 packet bytes e in
    (
      join h.labels,
      h.dot,
      h.second_dot,
      ap parse_dns_query same
          ∙ parse_dns_query-wire (query_header id) h.labels
              (be16 (if is_v6 then 28 else 1) ++ be16 1) (ap length (query_header-bytes id)) h.good,
      strip_dot-join h.labels h.good,
      h.text_is,
    )

-- ===== src/Dns/Message.antt =====
-- src/dns/message.cpp: queries and responses in the format of RFC 1035.
-- The random id is an argument. Offsets stay below the packet's size plus 2 ^ 17, so their sums are
-- written without wrap. Each loop of unknown length moves forward through its input, so one round
-- more than the input has bytes is enough fuel.
pub mod Name
pub mod Rounds
pub mod Qname
pub mod Accepts
pub mod Query
pub mod Size
pub mod Skip
pub mod Response
pub mod Totality
mod Examples
use cppsong.Base.{
  ℕ, zero, suc, ◌+◌, ◌-◌, ◌%◌, ◌^◌, bit_and, true, false, ◌&&◌, ◌||◌, Bool, List, [], ◌∷◌, ◌++◌,
  Option, none, some, Bytes, ltb, leb, ◌==◌, if◌then◌else◌,
}
use mathlib.Core.Option
use cppsong.Base.Lists.{length, take, drop}
use cppsong.Base.Outcome.{
  Outcome, ok, throw, bad_index, hang, ◌>>=◌, ◌>>◌, throw_if, at, string_at, domain_is_empty,
  domain_is_too_long, domain_is_invalid, label_is_invalid, invalid_dns_name, invalid_dns_pointer,
  invalid_dns_label, dns_packet_too_short, invalid_dns_question, invalid_dns_answer,
  invalid_dns_rdata, invalid_dns_packet,
}
use cppsong.Bytes.{at_end, read_u16, write_u8, write_u16}

abbrev pub is_empty : Bytes → Bool
is_empty [] = true
is_empty (_ ∷ _) = false

-- `view.find(byte)`: the first position, if any.
unfoldable pub find : ℕ → Bytes → Option ℕ
find c [] = none
find c (b ∷ bs) = if b == c then some 0 else Option.map suc (find c bs)

-- `view.find(byte, start)`
abbrev pub find_from : ℕ → Bytes → ℕ → Option ℕ
find_from c v start = Option.map (λ k. start + k) (find c (drop start v))

-- `if (domain.back() == '.') domain.remove_suffix(1)`, on a view that is not empty.
unfoldable pub strip_dot : Bytes → Bytes
strip_dot [] = []
strip_dot (b ∷ []) = if b == b'.' then [] else b ∷ []
strip_dot (b ∷ c ∷ bs) = b ∷ strip_dot (c ∷ bs)

-- `for (i = start; i < end; i++) write_u8(buffer, domain[i])`, for `n` characters.
unfoldable pub write_label : ℕ → Bytes → ℕ → Bytes → Outcome Bytes
write_label zero domain i buffer = ok buffer
write_label (suc n) domain i buffer = do
  c ← at domain i
  write_label n domain (i + 1) (write_u8 buffer (c % 2 ^ 8) at_end)

-- `end`, which is `domain.size()` where no dot was found.
abbrev pub label_end : Bytes → Option ℕ → ℕ
label_end domain none = length domain
label_end domain (some dot) = dot

-- The loop over the labels, from `start` on.
unfoldable pub encode_labels : ℕ → Bytes → ℕ → Bytes → Outcome Bytes
encode_labels zero domain start buffer = hang
encode_labels (suc fuel) domain start buffer = elim (ltb start (length domain)) [
  | false ↦ ok buffer
  | true ↦ do
    let dot = find_from b'.' domain start
    let label_length = label_end domain dot - start
    throw_if (label_length == 0 || ltb 63 label_length) label_is_invalid
    labelled ← write_label label_length domain start (write_u8 buffer (label_length % 2 ^ 8) at_end)
    elim dot [ none ↦ ok labelled | some d ↦ encode_labels fuel domain (d + 1) labelled ]
]

unfoldable pub encode_qname : Bytes → Outcome Bytes
unfolding strip_dot
encode_qname domain = do
  throw_if (is_empty domain) domain_is_empty
  throw_if (ltb 255 (length domain)) domain_is_too_long
  let stripped = strip_dot domain
  throw_if (is_empty stripped) domain_is_invalid
  buffer ← encode_labels (suc (length stripped)) stripped 0 []
  ok (write_u8 buffer 0 at_end)

-- The header of a query with the id `random_id`.
abbrev pub query_header : ℕ → Bytes
query_header random_id =
    let id = write_u16 [] random_id at_end in
    let flags = write_u16 id 0x0100 at_end in
    let questions = write_u16 flags 1 at_end in
    let answers = write_u16 questions 0 at_end in
    let authorities = write_u16 answers 0 at_end in write_u16 authorities 0 at_end

unfoldable pub build_dns_query : ℕ → Bytes → Bool → Outcome Bytes
build_dns_query random_id domain is_v6 = do
  qname ← encode_qname domain
  let packet = query_header random_id ++ qname
  let typed = if is_v6 then write_u16 packet 28 at_end else write_u16 packet 1 at_end
  ok (write_u16 typed 1 at_end)

unfoldable pub skip_name_loop : ℕ → Bytes → ℕ → Outcome ℕ
skip_name_loop zero packet offset = hang
skip_name_loop (suc fuel) packet offset = do
  throw_if (leb (length packet) offset) invalid_dns_name
  len ← at packet offset
  let next = skip_name_loop fuel packet (offset + (len + 1))
  if bit_and len 0xc0 == 0xc0
      then (do throw_if (ltb (length packet) (offset + 2)) invalid_dns_pointer; ok (offset + 2))
      else if len == 0
      then ok (offset + 1)
      else if ltb 63 len
      then throw invalid_dns_label
      else next

unfoldable pub skip_name : Bytes → ℕ → Outcome ℕ
skip_name packet offset = skip_name_loop (suc (length packet)) packet offset

-- `std::copy_n(packet.begin() + offset, n, …)`
abbrev pub copy_n : Bytes → ℕ → ℕ → Outcome Bytes
copy_n packet offset n =
    if ltb (length packet) (offset + n)
    then bad_index (length packet)
    else ok (take n (drop offset packet))

-- The loop over the questions, `n` of them left.
unfoldable pub skip_questions : ℕ → Bytes → ℕ → Outcome ℕ
skip_questions zero packet offset = ok offset
skip_questions (suc n) packet offset = do
  after_name ← skip_name packet offset
  throw_if (ltb (length packet) (after_name + 4)) invalid_dns_question
  skip_questions n packet (after_name + 4)

-- The addresses are those of Boost.Asio, built from their 4 or 16 bytes.
module _ {Address : Type 0} (of_v4 of_v6 : Bytes → Address) where
  -- `if (type == … && klass == 1 && rdlength == …) result.emplace_back(…)`
  abbrev collect : Bool → (Bytes → Address) → Bytes → ℕ → ℕ → List Address → Outcome (List Address)
  collect fits make packet offset size result =
      if fits
      then (do addr ← copy_n packet offset size; ok (result ++ make addr ∷ []))
      else ok result

  -- The loop over the answers, `n` of them left.
  unfoldable pub read_answers : ℕ → Bytes → ℕ → List Address → Outcome (List Address)
  read_answers zero packet offset result = ok result
  read_answers (suc n) packet offset result = do
    start ← skip_name packet offset
    throw_if (ltb (length packet) (start + 10)) invalid_dns_answer
    type ← read_u16 packet start
    klass ← read_u16 packet (start + 2)
    rdlength ← read_u16 packet (start + 2 + 2 + 4)
    let rdata = start + 2 + 2 + 4 + 2
    throw_if (ltb (length packet) (rdata + rdlength)) invalid_dns_rdata
    with_v4 ← collect (type == 1 && klass == 1 && rdlength == 4) of_v4 packet rdata 4 result
    with_v6 ← collect (type == 28 && klass == 1 && rdlength == 16) of_v6 packet rdata 16 with_v4
    read_answers n packet (rdata + rdlength) with_v6

  unfoldable pub parse_dns_response : Bytes → Outcome (List Address)
  parse_dns_response packet = do
    throw_if (ltb (length packet) 12) dns_packet_too_short
    qdcount ← read_u16 packet 4
    ancount ← read_u16 packet 6
    offset ← skip_questions qdcount packet 12
    read_answers ancount packet offset []

-- The loop of `parse_dns_query`.
unfoldable pub parse_labels : ℕ → Bytes → ℕ → Bytes → Outcome Bytes
parse_labels zero packet pos domain = hang
parse_labels (suc fuel) packet pos domain = do
  throw_if (leb (length packet) pos) invalid_dns_name
  len ← at packet pos
  let next = (do
    throw_if (ltb (length packet) (pos + 1 + len)) invalid_dns_label
    label ← string_at packet (pos + 1) len
    parse_labels fuel packet (pos + 1 + len)
        ((if is_empty domain then domain else domain ++ b'.' ∷ []) ++ label))
  if len == 0 then ok domain else next

unfoldable pub parse_dns_query : Bytes → Outcome Bytes
parse_dns_query packet = do
  throw_if (ltb (length packet) 12) invalid_dns_packet
  parse_labels (suc (length packet)) packet 12 []

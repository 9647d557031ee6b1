-- ===== src/Dns/Message/Response.antt =====
-- `parse_dns_response` against the format of RFC 1035, 4.1: from a response with any questions and
-- answers it takes the addresses of the A and AAAA records, in order.
use cppsong.Base.{
  ℕ, ◌+◌, ◌^◌, ◌<◌, ◌≡◌, refl, sym, ap, ◌∙◌, subst, List, [], ◌∷◌, ◌++◌, append_assoc, append-nil,
  arith, Bytes, Bool, ◌==◌, ◌&&◌, ge→ltb, if◌then◌else◌, true, false,
}
use cppsong.Base.Lists.{length, length-append, All, drop-append, take-append}
use cppsong.Base.Cursor.{Rest, Rest-start, Rest-skip, Rest-length}
use cppsong.Base.Outcome.{ok}
use cppsong.Bytes.Words.{be16}
use cppsong.Dns.Message.{skip_questions, collect, read_answers, parse_dns_response}
use cppsong.Dns.Message.Skip.{Name, NameFits, encode_name, skip_name-name, read_u16-Rest}

pub record Question : Type 0 where
  pub name : Name
  -- type and class
  pub fields : Bytes

pub record Answer : Type 0 where
  pub name : Name
  pub type : ℕ
  pub klass : ℕ
  pub ttl : Bytes
  pub rdata : Bytes

abbrev pub encode_questions : List Question → Bytes
encode_questions [] = []
encode_questions (q ∷ qs) = encode_name q.name ++ (q.fields ++ encode_questions qs)

abbrev fixed_part : Answer → Bytes
fixed_part a = be16 a.type ++ (be16 a.klass ++ (a.ttl ++ be16 (length a.rdata)))

abbrev pub encode_answers : List Answer → Bytes
encode_answers [] = []
encode_answers (a ∷ more) =
    encode_name a.name
    ++ (be16 a.type
        ++ (be16 a.klass ++ (a.ttl ++ (be16 (length a.rdata) ++ (a.rdata ++ encode_answers more)))))

pub record QuestionFits (q : Question) : Type 0 where
  pub name_fits : NameFits q.name
  pub fields_size : length q.fields ≡ 4

pub record AnswerFits (a : Answer) : Type 0 where
  pub name_fits : NameFits a.name
  pub type_fits : a.type < 2 ^ 16
  pub klass_fits : a.klass < 2 ^ 16
  pub ttl_size : length a.ttl ≡ 4
  pub rdata_fits : length a.rdata < 2 ^ 16

skip_questions-encode :
    (packet : Bytes) (qs : List Question) (offset : ℕ) (rest : Bytes)
    → All QuestionFits qs
    → Rest packet offset (encode_questions qs ++ rest)
    → skip_questions (length qs) packet offset ≡ ok (offset + length (encode_questions qs))
unfolding skip_questions
skip_questions-encode packet [] offset rest fits r = ap ok (omega arith)
skip_questions-encode packet (q ∷ qs) offset rest (fit, fits) r =
    let more = encode_questions qs ++ rest in
    let here : Rest packet offset (encode_name q.name ++ (q.fields ++ more)) =
      subst (Rest packet offset)
        (append_assoc (encode_name q.name) (q.fields ++ encode_questions qs) rest
          ∙ ap (◌++◌ (encode_name q.name)) (append_assoc q.fields (encode_questions qs) rest))
        r in
    let start = offset + length (encode_name q.name) in
    let fields : Rest packet start (q.fields ++ more) = Rest-skip (encode_name q.name) here refl in
    let after : Rest packet (start + 4) more =
      Rest-skip q.fields fields (omega (arith, fit.fields_size)) in
    rw
      (
        skip_name-name packet q.name offset (q.fields ++ more) fit.name_fits here,
        ge→ltb (length packet) (start + 4) (omega (arith, Rest-length after)),
      )
      (skip_questions-encode packet qs (start + 4) rest fits after
        ∙ ap ok (
            omega (
              arith,
              length-append (encode_name q.name) (q.fields ++ encode_questions qs),
              length-append q.fields (encode_questions qs),
              fit.fields_size,
            )))

module _ {Address : Type 0} (of_v4 of_v6 : Bytes → Address) where
  -- The address in a record: of class IN, and of type A with 4 bytes or type AAAA with 16.
  abbrev pub address_of : Answer → List Address
  address_of a =
      if a.type == 1 && a.klass == 1 && length a.rdata == 4
      then of_v4 a.rdata ∷ []
      else if a.type == 28 && a.klass == 1 && length a.rdata == 16
      then of_v6 a.rdata ∷ []
      else []

  abbrev pub addresses : List Answer → List Address
  addresses [] = []
  addresses (a ∷ more) = address_of a ++ addresses more

  collect-Rest :
      (fits : Bool) (make : Bytes → Address) (packet : Bytes) (offset size : ℕ)
      (octets rest : Bytes) (result : List Address)
      → (fits ≡ true → length octets ≡ size)
      → Rest packet offset (octets ++ rest)
      → collect of_v4 of_v6 fits make packet offset size result
        ≡ ok (result ++ (if fits then make octets ∷ [] else []))
  collect-Rest false make packet offset size octets rest result h r =
      ap ok (sym (append-nil result))
  collect-Rest true make packet offset size octets rest result h r =
      let same = h refl in
      let sizes = length-append octets rest in
      rw (
        ge→ltb (length packet) (offset + size) (omega (arith, Rest-length r)),
        r.splits,
        ← r.position,
        ← same,
        drop-append r.before (octets ++ rest),
        take-append octets rest,
      )

  two_tests :
      (a : Answer)
      → (if a.type == 1 && a.klass == 1 && length a.rdata == 4 then of_v4 a.rdata ∷ [] else [])
          ++ (if a.type == 28 && a.klass == 1 && length a.rdata == 16
              then of_v6 a.rdata ∷ []
              else [])
        ≡ address_of a
  two_tests a = ground arith

  size_of : (t k n m : ℕ) (type : ℕ) → (type == t && k == 1 && n == m) ≡ true → n ≡ m
  size_of t k n m type h = ground arith

  read_answers-encode :
      (packet : Bytes) (more : List Answer) (offset : ℕ) (rest : Bytes) (result : List Address)
      → length packet < 2 ^ 63
      → All AnswerFits more
      → Rest packet offset (encode_answers more ++ rest)
      → read_answers of_v4 of_v6 (length more) packet offset result ≡ ok (result ++ addresses more)
  unfolding read_answers
  read_answers-encode packet [] offset rest result size fits r = ap ok (sym (append-nil result))
  read_answers-encode packet (a ∷ more) offset rest result size (fit, fits) r =
      let next = encode_answers more ++ rest in
      let fields =
        be16 a.type ++ (be16 a.klass ++ (a.ttl ++ (be16 (length a.rdata) ++ (a.rdata ++ next)))) in
      let here : Rest packet offset (encode_name a.name ++ fields) =
        subst (Rest packet offset) (simp append_assoc) r in
      let start = offset + length (encode_name a.name) in
      let at_type : Rest packet start fields = Rest-skip (encode_name a.name) here refl in
      let at_class = Rest-skip (be16 a.type) {q = start + 2} at_type refl in
      let at_ttl = Rest-skip (be16 a.klass) {q = start + 2 + 2} at_class refl in
      let at_size = Rest-skip a.ttl {q = start + 2 + 2 + 4} at_ttl (omega (arith, fit.ttl_size)) in
      let at_rdata = Rest-skip (be16 (length a.rdata)) {q = start + 2 + 2 + 4 + 2} at_size refl in
      let rdata = start + 2 + 2 + 4 + 2 in
      let is_a = a.type == 1 && a.klass == 1 && length a.rdata == 4 in
      let is_aaaa = a.type == 28 && a.klass == 1 && length a.rdata == 16 in
      let with_v4 = result ++ (if is_a then of_v4 a.rdata ∷ [] else []) in
      let after : Rest packet (rdata + length a.rdata) next = Rest-skip a.rdata at_rdata refl in
      rw
        (
          skip_name-name packet a.name offset fields fit.name_fits here,
          ge→ltb (length packet) (start + 10) (omega (arith, Rest-length at_rdata)),
          read_u16-Rest packet a.type start _ fit.type_fits size at_type,
          read_u16-Rest packet a.klass (start + 2) _ fit.klass_fits size at_class,
          read_u16-Rest packet (length a.rdata) (start + 2 + 2 + 4) _ fit.rdata_fits size at_size,
          ge→ltb (length packet) (rdata + length a.rdata) (omega (arith, Rest-length after)),
          collect-Rest is_a of_v4 packet rdata 4 a.rdata next result
              (size_of 1 a.klass (length a.rdata) 4 a.type) at_rdata,
          collect-Rest is_aaaa of_v6 packet rdata 16 a.rdata next with_v4
              (size_of 28 a.klass (length a.rdata) 16 a.type) at_rdata,
          read_answers-encode packet more (rdata + length a.rdata) rest
              (with_v4 ++ (if is_aaaa then of_v6 a.rdata ∷ [] else [])) size fits after,
        )
        (ap ok (
          append_assoc with_v4 _ (addresses more)
          ∙ append_assoc result _ _
          ∙ ap (◌++◌ result) (
              sym (append_assoc _ _ (addresses more))
              ∙ ap (λ t. t ++ addresses more) (two_tests a))))

  -- A response with any id and flags, its questions and answers counted in the header, and whatever
  -- follows the answers, gives the addresses of its A and AAAA records of class IN, in order.
  pub parse_dns_response-encode :
      (front back : Bytes) (qs : List Question) (answers : List Answer) (rest : Bytes)
      → length front ≡ 4
      → length back ≡ 4
      → length qs < 2 ^ 16
      → length answers < 2 ^ 16
      → All QuestionFits qs
      → All AnswerFits answers
      → length (
          front
          ++ (be16 (length qs)
              ++ (be16 (length answers)
                  ++ (back ++ (encode_questions qs ++ (encode_answers answers ++ rest))))))
        < 2 ^ 63
      → parse_dns_response of_v4 of_v6 (
          front
          ++ (be16 (length qs)
              ++ (be16 (length answers)
                  ++ (back ++ (encode_questions qs ++ (encode_answers answers ++ rest))))))
        ≡ ok (addresses answers)
  unfolding parse_dns_response
  parse_dns_response-encode front back qs answers rest four four' few few' fit fit' size =
      let body = encode_questions qs ++ (encode_answers answers ++ rest) in
      let packet = front ++ (be16 (length qs) ++ (be16 (length answers) ++ (back ++ body))) in
      let at_qdcount = Rest-skip front {q = 4} (Rest-start packet) (omega arith) in
      let at_ancount = Rest-skip (be16 (length qs)) {q = 6} at_qdcount refl in
      let at_back = Rest-skip (be16 (length answers)) {q = 8} at_ancount refl in
      let at_questions = Rest-skip back {q = 12} at_back (omega arith) in
      let at_answers = Rest-skip (encode_questions qs) at_questions refl in
      rw (
        ge→ltb (length packet) 12 (omega (arith, Rest-length at_questions)),
        read_u16-Rest packet (length qs) 4 _ few size at_qdcount,
        read_u16-Rest packet (length answers) 6 _ few' size at_ancount,
        skip_questions-encode packet qs 12 (encode_answers answers ++ rest) fit at_questions,
        read_answers-encode packet answers (12 + length (encode_questions qs)) rest [] size fit'
            at_answers,
      )

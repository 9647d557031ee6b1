-- ===== src/Dns/Message/Examples.antt =====
-- Runs of src/dns/message.cpp at fixed inputs. An address is its bytes here.
use mathlib.Core.Logic.{◌↔◌}
use cppsong.Base.{◌≤◌, ◌≡◌, refl, Bool, true, List, [], ◌∷◌, ◌++◌, arith, ℕ, Bytes}
use cppsong.Base.Lists.{length, replicate}
use cppsong.Base.Ends.{Ends}
use cppsong.Base.Outcome.{ok, throw, at, string_at, domain_is_invalid, label_is_invalid}
use cppsong.Bytes.{read_u8, read_u16, write_u8, write_u16}
use cppsong.Bytes.Words.{be16}
use cppsong.Dns.Message.{
  find, strip_dot, write_label, encode_labels, encode_qname, build_dns_query, skip_name_loop,
  skip_name, skip_questions, read_answers, parse_dns_response, parse_labels, parse_dns_query,
}
use cppsong.Dns.Message.Accepts.{Encodes, encode_qname_iff}
use cppsong.Dns.Message.Name.{IsLabel, wire}
use cppsong.Dns.Message.Qname.{final_dot}
use cppsong.Dns.Message.Size.{build_dns_query-IsBytes}
use cppsong.Bytes.Bounds.{IsBytes}
use cppsong.Dns.Message.Query.{parse_dns_query-build_dns_query, parse_dns_query-wire}
use cppsong.Dns.Message.Response.{
  Question, Answer, encode_questions, encode_answers, addresses, parse_dns_response-encode,
}
use cppsong.Dns.Message.Skip.{root, pointer}
use cppsong.Dns.Message.Totality.{Any, parse_dns_response-Ends}

-- "a.bc"
abbrev name : Bytes
name = b'a' ∷ b'.' ∷ b'b' ∷ b'c' ∷ []

abbrev wired : Bytes
wired = 1 ∷ b'a' ∷ 2 ∷ b'b' ∷ b'c' ∷ 0 ∷ []

encode_name_runs : encode_qname name ≡ ok wired
unfolding encode_qname encode_labels write_label write_u8 find at
encode_name_runs = refl

-- An empty label is refused in front and between dots. Behind the last dot it is not seen.
encode_dots :
    (encode_qname (b'.' ∷ []) ≡ throw domain_is_invalid)
    × (encode_qname (b'.' ∷ b'a' ∷ []) ≡ throw label_is_invalid)
    × (encode_qname (b'a' ∷ b'.' ∷ b'.' ∷ b'b' ∷ []) ≡ throw label_is_invalid)
    × (encode_qname (b'a' ∷ b'.' ∷ b'.' ∷ []) ≡ ok (1 ∷ b'a' ∷ 0 ∷ []))
unfolding encode_qname encode_labels write_label write_u8 find at
encode_dots = (refl, refl, refl, refl)

abbrev query : Bytes
query =
    be16 7
    ++ (be16 0x0100
        ++ (be16 1 ++ (be16 0 ++ (be16 0 ++ (be16 0 ++ (wired ++ (be16 28 ++ be16 1)))))))

query_runs : build_dns_query 7 name true ≡ ok query
unfolding build_dns_query encode_qname encode_labels write_label write_u8 write_u16 find at
query_runs = refl

parse_query_runs : parse_dns_query query ≡ ok name
unfolding parse_dns_query parse_labels at string_at
parse_query_runs = refl

-- One question; an alias, an A and an AAAA record, each with a pointer to the question's name.
abbrev questions : List Question
questions =
    record {
      name = record { labels = (b'a' ∷ []) ∷ (b'b' ∷ b'c' ∷ []) ∷ []; ending = root };
      fields = 0 ∷ 1 ∷ 0 ∷ 1 ∷ [];
    }
    ∷ []

abbrev answer : ℕ → Bytes → Answer
answer type rdata = record {
  name = record { labels = []; ending = pointer 12 };
  type = type;
  klass = 1;
  ttl = 0 ∷ 0 ∷ 0 ∷ 60 ∷ [];
  rdata = rdata;
}

abbrev answers : List Answer
answers =
    answer 5 (0xc0 ∷ 12 ∷ []) ∷ answer 1 (10 ∷ 0 ∷ 0 ∷ 1 ∷ []) ∷ answer 28 (replicate 16 0xab) ∷ []

abbrev response : Bytes
response =
    (0 ∷ 7 ∷ 0x81 ∷ 0x80 ∷ [])
    ++ (be16 1
        ++ (be16 3
            ++ ((0 ∷ 0 ∷ 0 ∷ 0 ∷ [])
                ++ (encode_questions questions ++ (encode_answers answers ++ [])))))

response_runs :
    parse_dns_response (λ b. b) (λ b. b) response
    ≡ ok ((10 ∷ 0 ∷ 0 ∷ 1 ∷ []) ∷ replicate 16 0xab ∷ [])
unfolding parse_dns_response skip_questions read_answers skip_name skip_name_loop read_u16 read_u8
    at
response_runs = refl

encode_qname_iff_example : (encode_qname name ≡ ok wired) ↔ Encodes name wired
encode_qname_iff_example = encode_qname_iff name wired (omega arith)

parse_dns_query-build_dns_query_example :
    (text : Bytes) × (dot : Bool) × (second_dot : Bool) × (parse_dns_query query ≡ ok text)
    × (strip_dot text ≡ text)
    × (name ≡ (text ++ final_dot dot) ++ final_dot second_dot)
parse_dns_query-build_dns_query_example =
    parse_dns_query-build_dns_query 7 name true query (omega arith) query_runs

build_dns_query-IsBytes_example : IsBytes query × (length query ≤ 273)
build_dns_query-IsBytes_example = build_dns_query-IsBytes 7 name true query (omega arith) query_runs

IsLabel-example : IsLabel (b'a' ∷ [])
unfolding find
IsLabel-example = record {
  not_empty = omega arith;
  not_long = omega arith;
  no_dot = refl;
  bytes = omega arith;
}

parse_dns_query-wire_example :
    parse_dns_query (replicate 12 0 ++ (wire ((b'a' ∷ []) ∷ []) ++ [])) ≡ ok (b'a' ∷ [])
parse_dns_query-wire_example =
    parse_dns_query-wire (replicate 12 0) ((b'a' ∷ []) ∷ []) [] refl (IsLabel-example, tt)

parse_dns_response-encode_example :
    parse_dns_response (λ b. b) (λ b. b) response ≡ ok (addresses (λ b. b) (λ b. b) answers)
parse_dns_response-encode_example =
    parse_dns_response-encode (λ b. b) (λ b. b) (0 ∷ 7 ∷ 0x81 ∷ 0x80 ∷ []) (0 ∷ 0 ∷ 0 ∷ 0 ∷ [])
      questions answers [] refl refl (omega arith) (omega arith) (omega arith) (omega arith)
      (omega arith)

-- A question that ends in its name, and a pointer cut in half.
abbrev hostile : Bytes
hostile = replicate 5 0 ++ 1 ∷ replicate 6 0 ++ 0xc0 ∷ []

parse_dns_response-Ends_example : Ends Any (parse_dns_response (λ b. b) (λ b. b) hostile)
parse_dns_response-Ends_example =
    parse_dns_response-Ends hostile (omega arith) (omega arith) (λ b. b) (λ b. b)

-- ===== src/Dns/Center/Serving/Examples.antt =====
-- A center with one server, which answers a query of "a", and two clients, which are numbers. The
-- second sends no query.
use cppsong.Base.{
  ◌≤◌, some, none, ◌≡◌, refl, ◌↔◌, false, [], ◌∷◌, ◌++◌, map, ℕ, Bytes, List, bytes_eq,
}
use cppsong.Base.Outcome.{ok, connect_failed, at, string_at}
use cppsong.Base.Lists.{length}
use cppsong.Bytes.{read_u8, read_u16}
use cppsong.Bytes.Words.{be16}
use cppsong.Dns.Center.{DnsServer, DnsCenter, find_server, ask, match_server, relay}
use cppsong.Dns.Center.Answer.{Answers, relay-Answers}
use cppsong.Dns.Message.{
  parse_dns_query, parse_dns_response, parse_labels, skip_questions, read_answers, skip_name,
  skip_name_loop,
}
use cppsong.Dns.Center.Serving.{
  UdpSession, Serving, serving_start, into_buffer, after_relay, handle_client, Serves, here,
  then_arrives, then_handles,
}
use cppsong.Dns.Center.Serving.Order.{replies_to, Serves-Perm}
use mathlib.Core.List.{Perm}

-- The query of "a" for an IPv4 address.
abbrev packet : Bytes
packet =
    be16 7
    ++ (be16 0x0100
        ++ (be16 1 ++ (be16 0 ++ (be16 0 ++ (be16 0 ++ (1 ∷ b'a' ∷ 0 ∷ (be16 1 ++ be16 1)))))))

-- One answer, with the name at the root, and the address 1.2.3.4.
abbrev reply_bytes : Bytes
reply_bytes =
    0 ∷ 7 ∷ 0x81 ∷ 0x80 ∷ 0 ∷ 0 ∷ 0 ∷ 1 ∷ 0 ∷ 0 ∷ 0 ∷ 0 ∷ 0 ∷ 0 ∷ 1 ∷ 0 ∷ 1 ∷ 0 ∷ 0 ∷ 0 ∷ 60 ∷ 0 ∷ 4
    ∷ 1 ∷ 2 ∷ 3 ∷ 4 ∷ []

abbrev server : DnsServer
server _ = ok reply_bytes

abbrev address : Bytes
address = 1 ∷ 2 ∷ 3 ∷ 4 ∷ []

abbrev itself : Bytes → Bytes
itself v = v

abbrev center : DnsCenter Bytes Bytes
center = record { rules = []; servers = (b's' ∷ [], server) ∷ []; final = b's' ∷ []; cache = [] }

relay-Answers_example :
    relay bytes_eq itself itself center packet ≡ ok reply_bytes
    ↔ Answers bytes_eq itself itself center packet reply_bytes
relay-Answers_example = relay-Answers bytes_eq itself itself center packet reply_bytes

relay_runs : relay bytes_eq itself itself center packet ≡ ok reply_bytes
unfolding relay match_server find_server ask bytes_eq parse_dns_query parse_labels at string_at
    parse_dns_response skip_questions read_answers skip_name skip_name_loop read_u16 read_u8
relay_runs = refl

abbrev from_one : UdpSession ℕ
from_one = record { endpoint = 1; content = packet }

abbrev from_two : UdpSession ℕ
from_two = record { endpoint = 2; content = 0 ∷ [] }

abbrev from_three : UdpSession ℕ
from_three = record { endpoint = 3; content = packet }

abbrev asked : List (UdpSession ℕ)
asked = from_three ∷ from_two ∷ from_one ∷ []

-- The third client's reply is lost, and the second client's exception comes next.
abbrev served : Serving ℕ
served = record {
  pending = [];
  sent = record from_one { content = reply_bytes } ∷ [];
  closed = false;
}

Serves-runs : Serves bytes_eq itself itself center serving_start asked 1 served
unfolding handle_client after_relay relay match_server find_server ask bytes_eq parse_dns_query
    parse_labels at string_at parse_dns_response skip_questions read_answers skip_name
    skip_name_loop read_u16 read_u8
Serves-runs =
    then_handles
      (then_handles
        (then_handles
          (then_arrives (then_arrives (then_arrives here from_one refl refl) from_two refl refl)
            from_three refl refl)
          [] (from_two ∷ from_one ∷ []) from_three (some connect_failed) refl refl)
        [] (from_one ∷ []) from_two none refl refl)
      [] [] from_one none refl refl

Serves-Perm_example :
    (lost : List (UdpSession ℕ)) × (length lost ≤ 1)
    × Perm
        (served.sent ++ (replies_to bytes_eq itself itself center served.pending ++ lost))
        (replies_to bytes_eq itself itself center (map into_buffer asked))
Serves-Perm_example =
    Serves-Perm bytes_eq itself itself center 0 serving_start served asked 1 refl Serves-runs refl

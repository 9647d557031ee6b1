-- ===== src/Outbound/Examples.antt =====
-- A request of src/outbounds/vless.cpp, and a domain that is too long for its length field.
use cppsong.Base.{List, ◌≡◌, refl, [], ◌∷◌, ◌++◌, ◌==◌, Bytes, some, arith}
use cppsong.Base.Lists.{length, replicate}
use cppsong.Base.Outcome.{Outcome, ok}
use cppsong.Connection.Memory.{Memory, in_memory, memory_stream}
use cppsong.Base.Text.{codes}
use cppsong.Bytes.{write_u8, write_u16}
use cppsong.Inbound.{Session}
use cppsong.Inbound.Socks.{name}
use cppsong.Ip.{Address, domain_name}
use cppsong.Outbound.{IpBytes, append_host, request_data}
use cppsong.Outbound.Connect.{vless_connect}
use cppsong.Outbound.Delivery.{vless_connect-delivers}
use cppsong.Relay.{Turn, there_turn, back_turn, spawn_relay, run}
use cppsong.Outbound.Request.{parse_request, parse_request-request_data}

abbrev api : IpBytes Bytes
api = record { is_v4 = λ a. length a == 4; v4_bytes = λ a. a; v6_bytes = λ a. a }

abbrev uuid : Bytes
uuid = 0 ∷ 1 ∷ 2 ∷ 3 ∷ 4 ∷ 5 ∷ 6 ∷ 7 ∷ 8 ∷ 9 ∷ 10 ∷ 11 ∷ 12 ∷ 13 ∷ 14 ∷ 15 ∷ []

abbrev session : Bytes → Session Bytes
session domain = record {
  address = record { address = domain_name domain; port = 443 };
  first_data = 22 ∷ 3 ∷ [];
}

parse_request-request_data_example :
    parse_request (request_data api uuid (session (codes "a.b")))
    ≡ some (record { uuid = uuid; target = name (codes "a.b"); port = 443; payload = 22 ∷ 3 ∷ [] })
parse_request-request_data_example =
    parse_request-request_data api uuid (session (codes "a.b")) refl (omega arith) (omega arith)

-- A domain of 256 bytes is read as one without any, followed by itself.
long_domain :
    parse_request (request_data api uuid (session (replicate 256 97)))
    ≡ some (record {
      uuid = uuid;
      target = name [];
      port = 443;
      payload = replicate 256 97 ++ (22 ∷ 3 ∷ []);
    })
unfolding parse_request request_data append_host write_u8 write_u16
long_domain = refl

-- A server that answers with two zeros and one byte more, and a client with two bytes to come.
abbrev server : Memory
server = record { pending = 0 ∷ 0 ∷ 7 ∷ []; told = [] }

abbrev dial : Address Bytes → Outcome Memory
dial address = ok server

abbrev client : Memory
client = record { pending = 8 ∷ 9 ∷ []; told = 5 ∷ [] }

abbrev turns : List Turn
turns = replicate 5 there_turn ++ replicate 3 back_turn

vless_connect-delivers_example :
    (remote : Memory) × (request : Bytes) × (vless_connect in_memory dial api
        (session []).address
        uuid
        (session (codes "a.b"))
      ≡ ok remote)
    × ((run in_memory in_memory turns (spawn_relay in_memory in_memory client remote)).conn2.told
        ≡ request)
    × (parse_request request
        ≡ some (record {
          uuid = uuid;
          target = name (codes "a.b");
          port = 443;
          payload = 22 ∷ 3 ∷ 8 ∷ 9 ∷ [];
        }))
    × ((run in_memory in_memory turns (spawn_relay in_memory in_memory client remote)).conn1.told
        ≡ 5 ∷ 7 ∷ [])
unfolding memory_stream
vless_connect-delivers_example =
    vless_connect-delivers api in_memory memory_stream in_memory memory_stream dial
      (session []).address uuid (session (codes "a.b")) client server (8 ∷ 9 ∷ []) (7 ∷ []) turns
      refl (omega arith) (omega arith) refl refl refl (omega arith) (omega arith)

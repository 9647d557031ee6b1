-- ===== src/Inbound/Examples.antt =====
-- Clients of the inbound, on a connection in memory.
use cppsong.Base.{◌≡◌, refl, [], ◌∷◌, ◌++◌, Bytes, arith}
use cppsong.Base.Cursor.{Returns}
use cppsong.Base.Outcome.{bad_index}
use cppsong.Builder.Outbound.{UserPass}
use cppsong.Connection.Memory.{Memory, in_memory, memory_stream}
use cppsong.Inbound.{handle_socks5}
use cppsong.Inbound.Socks.{handle_socks5-Served, Served, name, accepted, ready}
use cppsong.Inbound.Auth.{handle_socks5-login}

-- The address of an IPv4 or IPv6 address is its bytes here.
abbrev of_bytes : Bytes → Bytes
of_bytes raw = raw

-- A client that offers the methods 2 and 0, asks for "a.b" at port 443, and sends two bytes.
abbrev client : Memory
client = record {
  pending = 2 ∷ 2 ∷ 0 ∷ 5 ∷ 1 ∷ 0 ∷ 3 ∷ 3 ∷ 97 ∷ 46 ∷ 98 ∷ 1 ∷ 187 ∷ 22 ∷ 3 ∷ [];
  told = [];
}

handle_socks5-Served_example :
    Returns
      (Served in_memory memory_stream of_bytes of_bytes client
        (name (97 ∷ 46 ∷ 98 ∷ []))
        443
        (22 ∷ 3 ∷ [])
        (accepted ++ ready))
      (handle_socks5 in_memory of_bytes of_bytes [] client)
unfolding memory_stream
handle_socks5-Served_example =
    handle_socks5-Served in_memory memory_stream of_bytes of_bytes client (2 ∷ []) [] 0
      (name (97 ∷ 46 ∷ 98 ∷ [])) 443 (22 ∷ 3 ∷ []) (omega arith) (omega arith) (omega arith) refl

-- The only user, who logs in.
abbrev user : UserPass
user = record { username = 109 ∷ 101 ∷ []; password = 112 ∷ 119 ∷ [] }

abbrev known_client : Memory
known_client = record { pending = 1 ∷ 2 ∷ 1 ∷ 2 ∷ 109 ∷ 101 ∷ 2 ∷ 112 ∷ 119 ∷ []; told = [] }

handle_socks5-login_example :
    handle_socks5 in_memory of_bytes of_bytes (user ∷ []) known_client ≡ bad_index 1
unfolding memory_stream
handle_socks5-login_example =
    handle_socks5-login in_memory memory_stream of_bytes of_bytes known_client user [] (2 ∷ [])
      (109 ∷ 101 ∷ []) 2 (112 ∷ 119 ∷ []) refl

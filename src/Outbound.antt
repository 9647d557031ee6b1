-- ===== src/Outbound.antt =====
-- src/outbounds/vless.cpp: the request of the VLESS protocol, and the answer to it. The three
-- readings of an `ip::address` are parameters.
pub mod Request
pub mod Connect
pub mod Delivery
mod Examples
use cppsong.Base.{ℕ, ◌%◌, ◌^◌, Bool, not, ◌||◌, [], ◌∷◌, ◌++◌, Bytes, ◌==◌, if◌then◌else◌}
use cppsong.Base.Lists.{length}
use cppsong.Base.Outcome.{at, vless_handshake}
use cppsong.Bytes.{write_u8, write_u16, at_end}
use cppsong.Connection.{Io, Connection, ◌>>=◌, ◌>>◌, pure, lift, fail_if}
use cppsong.Inbound.{Session}
use cppsong.Ip.{Host, domain_name, ip_address}

-- `is_v4()`, `to_v4().to_bytes()` and `to_v6().to_bytes()`.
pub record IpBytes (Ip : Type 0) : Type 0 where
  pub is_v4 : Ip → Bool
  pub v4_bytes : Ip → Bytes
  pub v6_bytes : Ip → Bytes

module _ {Ip : Type 0} (api : IpBytes Ip) where
  unfoldable pub append_host : Bytes → Host Ip → Bytes
  unfolding write_u8
  append_host request (domain_name value) =
      write_u8 (write_u8 request 2 at_end) (length value % 2 ^ 8) at_end ++ value
  append_host request (ip_address value) =
      if api.is_v4 value
      then write_u8 request 1 at_end ++ api.v4_bytes value
      else write_u8 request 3 at_end ++ api.v6_bytes value

  unfoldable pub request_data : Bytes → Session Ip → Bytes
  unfolding append_host write_u16
  request_data uuid session =
      let request = ((0 ∷ []) ++ uuid) ++ (0 ∷ 1 ∷ []) in
      append_host (write_u16 request session.address.port at_end) session.address.address
      ++ session.first_data

-- What `connect` does with the connection to the server.
unfoldable pub handshake : {C : Type 0} → Connection C → Bytes → Io C (Unit {0})
handshake conn request = do
  conn.write request
  received ← conn.read_exactly 2
  first ← lift (at received 0)
  second ← lift (at received 1)
  fail_if (not (first == 0) || not (second == 0)) vless_handshake

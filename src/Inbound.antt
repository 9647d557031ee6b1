-- ===== src/Inbound.antt =====
-- src/inbounds/mixed.cpp: what a client asks for, in SOCKS5 or in HTTP. A handler's value is the
-- session that it puts into the queue, or none after it has closed the connection.
pub mod Socks
pub mod Auth
pub mod Total
pub mod Http
pub mod Clients
mod Examples
use cppsong.Base.{
  ℕ, ◌+◌, Bool, true, false, not, ◌&&◌, List, [], ◌∷◌, ◌++◌, Bytes, Option, none, some, ◌==◌,
  bytes_eq, if◌then◌else◌,
}
use cppsong.Base.Outcome.{
  Outcome, ok, throw, at, auth_failure, socks5_version, cmd_error, atyp_error,
}
use cppsong.Builder.Outbound.{UserPass}
use cppsong.Bytes.{read_u16}
use cppsong.Connection.{Io, Connection, ◌>>=◌, ◌>>◌, pure, lift, fail_if}
use cppsong.Ip.{Host, domain_name, ip_address, Address}

-- `InTcpSession`, beside its connection.
pub record Session (Ip : Type 0) : Type 0 where
  pub address : Address Ip
  pub first_data : Bytes

-- `std::find(v.begin(), v.end(), b) != v.end()`
pub has_byte : ℕ → Bytes → Bool
has_byte b [] = false
has_byte b (c ∷ cs) = let rest = has_byte b cs in if c == b then true else rest

-- `std::find(users_.begin(), users_.end(), UserPass{username, passwd}) != users_.end()`
pub has_user : Bytes → Bytes → List UserPass → Bool
has_user username passwd [] = false
has_user username passwd (u ∷ us) =
    let rest = has_user username passwd us in
    if bytes_eq u.username username && bytes_eq u.password passwd then true else rest

module _ {C : Type 0} (conn : Connection C) where
  -- What is left when there are no users to ask for: the method 0, or the end.
  pub without_users : Bytes → Io C Bool
  without_users methods =
      if has_byte 0 methods
      then (do conn.write (5 ∷ 0 ∷ []); pure true)
      else (do conn.write (5 ∷ 0xff ∷ []); conn.close; pure false)

  -- The length of the password is read from the second of one byte.
  pub with_users : List UserPass → Io C Bool
  with_users users = do
    conn.write (5 ∷ 2 ∷ [])
    header ← conn.read_exactly 2
    version ← lift (at header 0)
    fail_if (not (version == 1)) auth_failure
    ulen ← lift (at header 1)
    username ← conn.read_exactly ulen
    plen_data ← conn.read_exactly 1
    plen ← lift (at plen_data 1)
    passwd ← conn.read_exactly plen
    if has_user username passwd users
        then (do conn.write (1 ∷ 0 ∷ []); pure true)
        else (do conn.write (1 ∷ 1 ∷ []); conn.close; pure false)

  pub method_chosen : List UserPass → Bytes → Io C Bool
  method_chosen [] methods = without_users methods
  method_chosen (u ∷ us) methods = with_users (u ∷ us)

-- The constructors of `ip::address_v4` and `ip::address_v6` from their bytes.
module _ {C Ip : Type 0} (conn : Connection C) (of_v4 of_v6 : Bytes → Ip) where
  pub read_domain : Io C (Host Ip)
  read_domain = do
    len_data ← conn.read_exactly 1
    len ← lift (at len_data 0)
    name ← conn.read_exactly len
    pure (domain_name name)

  pub read_ip : ℕ → (Bytes → Ip) → Io C (Host Ip)
  read_ip size make = do raw ← conn.read_exactly size; pure (ip_address (make raw))

  pub read_host : ℕ → Io C (Host Ip)
  read_host atyp =
      if atyp == 1
      then read_ip 4 of_v4
      else if atyp == 3
      then read_domain
      else if atyp == 4
      then read_ip 16 of_v6
      else lift (throw atyp_error)

  -- From the request on.
  pub read_request : Io C (Option (Session Ip))
  read_request = do
    header ← conn.read_exactly 4
    version ← lift (at header 0)
    fail_if (not (version == 5)) socks5_version
    cmd ← lift (at header 1)
    fail_if (not (cmd == 1)) cmd_error
    atyp ← lift (at header 3)
    host ← read_host atyp
    port_data ← conn.read_exactly 2
    port ← lift (read_u16 port_data 0)
    conn.write (5 ∷ 0 ∷ 0 ∷ 1 ∷ 0 ∷ 0 ∷ 0 ∷ 0 ∷ 0 ∷ 0 ∷ [])
    first_data ← conn.read 4096
    pure (
        some (record { address = record { address = host; port = port }; first_data = first_data }))

  unfoldable pub handle_socks5 : List UserPass → Io C (Option (Session Ip))
  unfolding without_users with_users method_chosen read_domain read_ip read_host read_request
      has_byte has_user
  handle_socks5 users = do
    nmethods_data ← conn.read_exactly 1
    nmethods ← lift (at nmethods_data 0)
    methods ← conn.read_exactly nmethods
    goes_on ← method_chosen conn users methods
    if goes_on then read_request else pure none

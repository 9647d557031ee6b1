-- ===== src/Outbound/Request.antt =====
-- What a VLESS server reads in the request: the code against the protocol.
use cppsong.Base.{
  ℕ, ◌+◌, ◌*◌, ◌/◌, ◌%◌, ◌^◌, ◌<◌, ◌≡◌, subst, ap, ap₂, ◌∙◌, ◌&&◌, Bool-cases, inl, inr, [], ◌∷◌,
  ◌++◌, append_assoc, Bytes, Option, none, some, ◌==◌, if◌then◌else◌, arith,
}
use cppsong.Base.Lists.{length, take, drop, take-append, drop-append}
use cppsong.Bytes.{write_u8}
use cppsong.Bytes.RoundTrip.{write_u16-end}
use cppsong.Bytes.Words.{be16}
use cppsong.Inbound.{Session}
use cppsong.Inbound.Socks.{Target, v4, name, v6, TargetFits}
use cppsong.Ip.{Host, domain_name, ip_address}
use cppsong.Outbound.{IpBytes, append_host, request_data}

pub record Request : Type 0 where
  pub uuid : Bytes
  pub target : Target
  pub port : ℕ
  pub payload : Bytes

read_name : Bytes → Option (Target × Bytes)
read_name [] = none
read_name (n ∷ body) = some (name (take n body), drop n body)

read_target : ℕ → Bytes → Option (Target × Bytes)
unfolding read_name
read_target atyp body =
    if atyp == 1
    then some (v4 (take 4 body), drop 4 body)
    else if atyp == 2
    then read_name body
    else if atyp == 3
    then some (v6 (take 16 body), drop 16 body)
    else none

with_target : Bytes → ℕ → Option (Target × Bytes) → Option Request
with_target uuid port none = none
with_target uuid port (some found) =
    some (record { uuid = uuid; target = found.0; port = port; payload = found.1 })

after_uuid : Bytes → Bytes → Option Request
unfolding read_target with_target
after_uuid uuid (addons ∷ command ∷ high ∷ low ∷ atyp ∷ body) =
    if addons == 0 && command == 1
    then with_target uuid (high * 2 ^ 8 + low) (read_target atyp body)
    else none
after_uuid uuid _ = none

-- A server's reading, independent of the code, which has no server: the version 0, an identity of
-- sixteen bytes, no add-ons, the command 1 for TCP, a port, the kind of the host, and the host. It
-- takes no request of another version, with add-ons, or with another command.
unfoldable pub parse_request : Bytes → Option Request
unfolding after_uuid
parse_request [] = none
parse_request (version ∷ rest) =
    if version == 0 then after_uuid (take 16 rest) (drop 16 rest) else none

take-size : (n : ℕ) (xs ys : Bytes) → length xs ≡ n → take n (xs ++ ys) ≡ xs
take-size n xs ys size = subst (λ (m : ℕ). take m (xs ++ ys) ≡ xs) size (take-append xs ys)

drop-size : (n : ℕ) (xs ys : Bytes) → length xs ≡ n → drop n (xs ++ ys) ≡ ys
drop-size n xs ys size = subst (λ (m : ℕ). drop m (xs ++ ys) ≡ ys) size (drop-append xs ys)

module _ {Ip : Type 0} (api : IpBytes Ip) where
  abbrev pub target_of : Host Ip → Target
  target_of (domain_name value) = name value
  target_of (ip_address value) =
      if api.is_v4 value then v4 (api.v4_bytes value) else v6 (api.v6_bytes value)

  -- The kind of host, and its bytes.
  abbrev kind_of : Target → ℕ
  kind_of (v4 raw) = 1
  kind_of (name text) = 2
  kind_of (v6 raw) = 3

  abbrev field_of : Target → Bytes
  field_of (v4 raw) = raw
  field_of (name text) = (length text % 2 ^ 8) ∷ text
  field_of (v6 raw) = raw

  append_host-field :
      (request : Bytes) (host : Host Ip)
      → append_host api request host
        ≡ request ++ (kind_of (target_of host) ∷ field_of (target_of host))
  unfolding append_host write_u8
  append_host-field request (domain_name value) =
      append_assoc (request ++ 2 ∷ []) ((length value % 2 ^ 8) ∷ []) value
      ∙ append_assoc request (2 ∷ []) ((length value % 2 ^ 8) ∷ value)
  append_host-field request (ip_address value) = elim (Bool-cases (api.is_v4 value)) [
    | inl four ↦ rw four (append_assoc request (1 ∷ []) (api.v4_bytes value))
    | inr six ↦ rw six (append_assoc request (3 ∷ []) (api.v6_bytes value))
  ]

  read_target-field :
      (target : Target) (payload : Bytes)
      → TargetFits target
      → read_target (kind_of target) (field_of target ++ payload) ≡ some (target, payload)
  unfolding read_target read_name
  read_target-field (v4 raw) payload size =
      ap₂ (λ (x y : Bytes). some (v4 x, y)) (take-size 4 raw payload size)
        (drop-size 4 raw payload size)
  read_target-field (name text) payload size =
      let same : length text ≡ length text % 2 ^ 8 = omega (arith, size) in
      ap₂ (λ (x y : Bytes). some (name x, y)) (take-size (length text % 2 ^ 8) text payload same)
        (drop-size (length text % 2 ^ 8) text payload same)
  read_target-field (v6 raw) payload size =
      ap₂ (λ (x y : Bytes). some (v6 x, y)) (take-size 16 raw payload size)
        (drop-size 16 raw payload size)

  request_data-bytes :
      (uuid : Bytes) (session : Session Ip)
      → request_data api uuid session
        ≡ 0
          ∷ (uuid
              ++ (0
                  ∷ 1
                  ∷ (be16 session.address.port
                      ++ (kind_of (target_of session.address.address)
                          ∷ (field_of (target_of session.address.address) ++ session.first_data)))))
  unfolding request_data
  request_data-bytes uuid session =
      let front = (0 ∷ uuid) ++ (0 ∷ 1 ∷ []) in
      let port = session.address.port in
      let kind = kind_of (target_of session.address.address) in
      let field = field_of (target_of session.address.address) in
      ap (λ (v : Bytes). append_host api v session.address.address ++ session.first_data)
        (write_u16-end front port 0)
      ∙ ap (λ (v : Bytes). v ++ session.first_data)
          (append_host-field (front ++ be16 port) session.address.address)
      ∙ append_assoc (front ++ be16 port) (kind ∷ field) session.first_data
      ∙ append_assoc front (be16 port) (kind ∷ (field ++ session.first_data))
      ∙ append_assoc (0 ∷ uuid) (0 ∷ 1 ∷ []) (be16 port ++ (kind ∷ (field ++ session.first_data)))

  -- For an identity of sixteen bytes, a port of sixteen bits, and a domain of less than 256 bytes
  -- or an address with the bytes of its family, a server that takes only the version 0, no
  -- add-ons and the command 1 accepts the request, and reads in it the identity, the host, the
  -- port and the first data of the session.
  pub parse_request-request_data :
      (uuid : Bytes) (session : Session Ip)
      → length uuid ≡ 16
      → session.address.port < 2 ^ 16
      → TargetFits (target_of session.address.address)
      → parse_request (request_data api uuid session)
        ≡ some (record {
          uuid = uuid;
          target = target_of session.address.address;
          port = session.address.port;
          payload = session.first_data;
        })
  unfolding parse_request after_uuid with_target request_data
  parse_request-request_data uuid session size small fits =
      let port = session.address.port in
      let target = target_of session.address.address in
      let rest =
        0 ∷ 1 ∷ (be16 port ++ (kind_of target ∷ (field_of target ++ session.first_data))) in
      ap parse_request (request_data-bytes uuid session)
      ∙ ap₂ after_uuid (take-size 16 uuid rest size) (drop-size 16 uuid rest size)
      ∙ ap (with_target uuid (port / 2 ^ 8 % 2 ^ 8 * 2 ^ 8 + port % 2 ^ 8))
          (read_target-field target session.first_data fits)
      ∙ ap
          (λ (p : ℕ).
            some (record { uuid = uuid; target = target; port = p; payload = session.first_data }))
          (omega (arith, small))

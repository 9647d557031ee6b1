-- ===== src/Ip.antt =====
-- `ip::address` of Boost.Asio, which the program uses and does not implement, and the addresses of
-- src/common/address.hpp.
use cppsong.Base.{ℕ, ◌≡◌, Bool, ◌++◌, Bytes, if◌then◌else◌}
use cppsong.Base.Text.{codes}
use cppsong.Base.Lists.{length}

-- `is_v4()`, `to_v4().to_uint()` and `to_v6().to_bytes()`.
pub record IpApi (Ip : Type 0) : Type 0 where
  pub is_v4 : Ip → Bool
  pub to_uint : Ip → ℕ
  pub to_bytes : Ip → Bytes

-- An IPv6 address has sixteen bytes.
pub record IpLaws {Ip : Type 0} (api : IpApi Ip) : Type 0 where
  pub to_bytes_size : (a : Ip) → length (api.to_bytes a) ≡ 16

-- The variant in `Address`.
pub data Host (Ip : Type 0) : Type 0 where
  domain_name : Bytes → Host Ip
  ip_address : Ip → Host Ip

pub record Address (Ip : Type 0) : Type 0 where
  pub address : Host Ip
  pub port : ℕ

-- `Address::toString`; `address_text` is `to_string()` of an address, `number_text` the format of a
-- number.
unfoldable pub to_string :
    {Ip : Type 0} → IpApi Ip → (Ip → Bytes) → (ℕ → Bytes) → Address Ip → Bytes
to_string api address_text number_text address = elim address.address [
  | domain_name value ↦ value ++ codes ":" ++ number_text address.port
  | ip_address value ↦
      if api.is_v4 value
      then address_text value ++ codes ":" ++ number_text address.port
      else codes "[" ++ address_text value ++ codes "]:" ++ number_text address.port
]

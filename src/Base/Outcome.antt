-- ===== src/Base/Outcome.antt =====
-- What a call of the program ends in: a value, a `std::runtime_error`, or a step that C++ leaves
-- undefined. `hang` is no outcome of the program: a loop of the model ran out of fuel.
use cppsong.Base.Lists.{length, get_elem?, take, drop}
use Prim.Native.Nat.{ℕ, ◌+◌}
use mathlib.Core.Bool.{Bool, true, false}
use mathlib.Core.Path.{◌≡◌, refl}
use mathlib.Core.Option.{none, some}
use cppsong.Base.Tests.{Bytes, ltb, leb, if◌then◌else◌}

-- One constructor for each message that the modelled code throws.
pub data Error : Type 0 where
  read_out_of_range : Error
  domain_is_empty domain_is_too_long domain_is_invalid label_is_invalid : Error
  invalid_dns_name invalid_dns_pointer invalid_dns_label dns_packet_too_short : Error
  bad_optional_access no_dns_server : Error
  not_that_kind json_number_too_large json_syntax : Error
  invalid_argument out_of_range invalid_address invalid_cidr_prefix invalid_regex : Error
  end_of_stream not_binary auth_failure socks5_version cmd_error atyp_error invalid_url : Error
  vless_handshake all_tries_fail connect_failed operation_aborted : Error
  bad_descriptor no_udp_address tls_hostname error_path : Error
  no_rule_set unsupported_rule_set_type unsupported_rule_set_format error_uuid : Error
  unsupported_dns_server unsupported_inbound unsupported_outbound unsupported_transport : Error
  invalid_dns_question invalid_dns_answer invalid_dns_rdata invalid_dns_packet : Error

pub data Outcome {ℓ} (A : Type ℓ) : Type ℓ where
  ok : A → Outcome A
  throw : Error → Outcome A
  -- `v[i]` read or written at an index past the end
  bad_index : ℕ → Outcome A
  -- the address `&v[i]` formed at an index past the end
  bad_address : ℕ → Outcome A
  hang : Outcome A

infixl 5 ◌>>=◌ ◌>>◌
abbrev pub ◌>>=◌ {ℓ κ} : {A : Type ℓ} {B : Type κ} → Outcome A → (A → Outcome B) → Outcome B
ok a >>= f = f a
throw e >>= f = throw e
bad_index i >>= f = bad_index i
bad_address i >>= f = bad_address i
hang >>= f = hang

abbrev pub ◌>>◌ {ℓ} : {B : Type ℓ} → Outcome (Unit {0}) → Outcome B → Outcome B
m >> k = m >>= λ _. k

-- `if (bad) throw error;`
abbrev pub throw_if : Bool → Error → Outcome (Unit {0})
throw_if true e = throw e
throw_if false e = ok tt

-- `v[i]`
unfoldable pub at : Bytes → ℕ → Outcome ℕ
at v i = elim (get_elem? v i) [ none ↦ bad_index i | some b ↦ ok b ]

-- `std::string(&v[i], n)`: the address needs an element to stand at, and then `n` are read.
unfoldable pub string_at : Bytes → ℕ → ℕ → Outcome Bytes
string_at v i n =
    if leb (length v) i
    then bad_address i
    else if ltb (length v) (i + n)
    then bad_index (length v)
    else ok (take n (drop i v))

-- What a successful sequence says of its parts.
pub >>=-ok {ℓ κ} :
    {A : Type ℓ} {B : Type κ} (m : Outcome A) (f : A → Outcome B) {b : B}
    → m >>= f ≡ ok b
    → (a : A) × (m ≡ ok a) × (f a ≡ ok b)
>>=-ok (ok a) f e = (a, refl, e)
>>=-ok (throw x) f e = cc
>>=-ok (bad_index i) f e = cc
>>=-ok (bad_address i) f e = cc
>>=-ok hang f e = cc

pub throw_if-ok {ℓ} :
    {A : Type ℓ} (b : Bool) (error : Error) (m : Outcome A) {a : A}
    → throw_if b error >> m ≡ ok a
    → (b ≡ false) × (m ≡ ok a)
throw_if-ok true error m e = cc
throw_if-ok false error m e = (refl, e)

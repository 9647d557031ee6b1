-- ===== src/Json/Numbers.antt =====
-- `getu16` on every number: what it accepts, and what it makes of a negative one.
use cppsong.Base.{
  ℕ, ◌+◌, ◌-◌, ◌%◌, ◌^◌, ◌≤◌, ◌<◌, ◌≡◌, refl, ap, Bytes, Option, none, some, arith, lt→ltb, ge→ltb,
}
use cppsong.Base.Outcome.{Outcome, ok, throw, ◌>>=◌, not_that_kind, json_number_too_large}
use cppsong.Bytes.{ℤ, pos, negsuc}
use cppsong.Json.{JsonApi, as_kind, int64_u16, found_u16, get_u16}

-- What a member of an object stands for as a port.
abbrev pub PortOf : Option (Option ℤ) → Outcome ℕ → Type 0
PortOf none r = r ≡ ok 0
PortOf (some none) r = r ≡ throw not_that_kind
PortOf (some (some (pos n))) r =
    (n < 2 ^ 16 → r ≡ ok n) × (2 ^ 16 ≤ n → r ≡ throw json_number_too_large)
PortOf (some (some (negsuc n))) r = (p : ℕ) × (r ≡ ok p) × (p < 2 ^ 16) × ((p + n + 1) % 2 ^ 16 ≡ 0)

int64_u16-PortOf : (i : ℤ) → PortOf (some (some i)) (int64_u16 i)
unfolding int64_u16
int64_u16-PortOf (pos n) = (
  λ fits. rw (ge→ltb 0xffff n (omega arith)) (ap ok (omega arith)),
  λ large. rw (lt→ltb 0xffff n (omega arith)),
)
int64_u16-PortOf (negsuc n) = (2 ^ 16 - 1 - n % 2 ^ 16, refl, omega arith, omega arith)

module _ {Value Object : Type 0} (json : JsonApi Value Object) where
  -- The integer that a member is, if there is one.
  abbrev pub int64_of : Option Value → Option (Option ℤ)
  int64_of none = none
  int64_of (some v) = some (json.if_int64 v)

  found_u16-PortOf : (v : Option Value) → PortOf (int64_of v) (found_u16 json v)
  unfolding found_u16
  found_u16-PortOf none = refl
  found_u16-PortOf (some v) = by_kind (json.if_int64 v)
    where
      by_kind : (i : Option ℤ) → PortOf (some i) (as_kind i >>= int64_u16)
      by_kind none = refl
      by_kind (some i) = int64_u16-PortOf i

  -- A key that is missing is the port 0; a number below 2 ^ 16 is itself; a greater one and a value
  -- that is no integer throw; and a negative one is taken modulo 2 ^ 16, without an exception.
  pub get_u16-PortOf :
      (obj : Object) (key : Bytes) → PortOf (int64_of (json.find obj key)) (get_u16 json obj key)
  unfolding get_u16
  get_u16-PortOf obj key = found_u16-PortOf (json.find obj key)

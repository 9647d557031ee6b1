-- ===== src/Json.antt =====
-- src/utils/json.cpp: the getters. A JSON value is Boost.JSON's: `find` of an object, and for each
-- kind the value behind it if it is of that kind (`if_bool` and the like).
pub mod Numbers
pub mod Total
pub mod Writer
pub mod Tree
mod Examples
use cppsong.Base.{
  ℕ, ◌+◌, ◌-◌, ◌%◌, ◌^◌, Bool, true, false, List, [], ◌∷◌, Bytes, Option, none, some, ltb,
  if◌then◌else◌,
}
use cppsong.Base.Outcome.{
  Error, Outcome, ok, throw, ◌>>=◌, ◌>>◌, throw_if, not_that_kind, json_number_too_large,
}
use cppsong.Bytes.{ℤ, pos, negsuc}

pub record JsonApi (Value Object : Type 0) : Type 0 where
  pub find : Object → Bytes → Option Value
  -- `json::object{}`
  pub empty_object : Object
  pub if_bool : Value → Option Bool
  pub if_string : Value → Option Bytes
  pub if_int64 : Value → Option ℤ
  pub if_object : Value → Option Object
  pub if_array : Value → Option (List Value)

-- `as_bool()` and the like throw for a value of another kind.
abbrev pub as_kind : {A : Type 0} → Option A → Outcome A
as_kind none = throw not_that_kind
as_kind (some a) = ok a

-- `value > 0xffff`
abbrev pub exceeds_u16 : ℤ → Bool
exceeds_u16 (pos n) = ltb 0xffff n
exceeds_u16 (negsuc n) = false

-- `static_cast<u16>(value)`, where `negsuc n` is -(n + 1).
abbrev pub to_u16 : ℤ → ℕ
to_u16 (pos n) = n % 2 ^ 16
to_u16 (negsuc n) = 2 ^ 16 - 1 - n % 2 ^ 16

unfoldable pub int64_u16 : ℤ → Outcome ℕ
int64_u16 value = do throw_if (exceeds_u16 value) json_number_too_large; ok (to_u16 value)

module _ {Value Object : Type 0} (json : JsonApi Value Object) where
  unfoldable pub get_bool : Object → Bytes → Bool → Outcome Bool
  get_bool obj key def = elim (json.find obj key) [
    | none ↦ ok def
    | some value ↦ as_kind (json.if_bool value)
  ]

  unfoldable pub get_string : Object → Bytes → Outcome Bytes
  get_string obj key = elim (json.find obj key) [
    | none ↦ ok []
    | some value ↦ as_kind (json.if_string value)
  ]

  unfoldable pub found_u16 : Option Value → Outcome ℕ
  found_u16 none = ok 0
  found_u16 (some value) = as_kind (json.if_int64 value) >>= int64_u16

  unfoldable pub get_u16 : Object → Bytes → Outcome ℕ
  unfolding found_u16
  get_u16 obj key = found_u16 (json.find obj key)

  unfoldable pub all_strings : List Value → Outcome (List Bytes)
  all_strings [] = ok []
  all_strings (item ∷ items) = do
    text ← as_kind (json.if_string item)
    res ← all_strings items
    ok (text ∷ res)

  -- A value that is neither a string nor an array counts for nothing.
  abbrev pub string_or_array : Option Bytes → Option (List Value) → Outcome (List Bytes)
  string_or_array (some text) array = ok (text ∷ [])
  string_or_array none (some items) = all_strings items
  string_or_array none none = ok []

  unfoldable pub get_string_list : Object → Bytes → Outcome (List Bytes)
  unfolding all_strings
  get_string_list obj key = elim (json.find obj key) [
    | none ↦ ok []
    | some value ↦ string_or_array (json.if_string value) (json.if_array value)
  ]

  unfoldable pub get_obj : Object → Bytes → Outcome Object
  get_obj obj key = elim (json.find obj key) [
    | none ↦ ok json.empty_object
    | some value ↦ as_kind (json.if_object value)
  ]

  unfoldable pub get_array : Object → Bytes → Outcome (List Value)
  get_array obj key = elim (json.find obj key) [
    | none ↦ ok []
    | some value ↦ as_kind (json.if_array value)
  ]

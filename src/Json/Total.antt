-- ===== src/Json/Total.antt =====
-- The getters end in a value or an exception.
use cppsong.Base.{Bytes, List, [], ◌∷◌, Option, none, some, Option-cases, inl, inr}
use cppsong.Base.Ends.{Ends, bind-Ends}
use cppsong.Json.{JsonApi, as_kind, all_strings, string_or_array, get_string_list, get_array}

abbrev pub Any : {A : Type 0} → A → Type 0
Any _ = Unit {0}

pub as_kind-Ends : {A : Type 0} (o : Option A) → Ends Any (as_kind o)
as_kind-Ends none = tt
as_kind-Ends (some a) = tt

module _ {Value Object : Type 0} (json : JsonApi Value Object) where
  all_strings-Ends : (items : List Value) → Ends Any (all_strings json items)
  unfolding all_strings
  all_strings-Ends [] = tt
  all_strings-Ends (item ∷ items) =
      bind-Ends Any Any (as_kind (json.if_string item)) _ (as_kind-Ends (json.if_string item))
        λ text _. bind-Ends Any Any (all_strings json items) _ (all_strings-Ends items) λ _ _. tt

  string_or_array-Ends :
      (text : Option Bytes) (array : Option (List Value))
      → Ends Any (string_or_array json text array)
  string_or_array-Ends (some text) array = tt
  string_or_array-Ends none (some items) = all_strings-Ends items
  string_or_array-Ends none none = tt

  pub get_string_list-Ends : (obj : Object) (key : Bytes) → Ends Any (get_string_list json obj key)
  unfolding get_string_list
  get_string_list-Ends obj key = elim (Option-cases (json.find obj key)) [
    | inl missing ↦ rw (Ends, missing) tt
    | inr (value, found) ↦
        rw (Ends, found) (string_or_array-Ends (json.if_string value) (json.if_array value))
  ]

  pub get_array-Ends : (obj : Object) (key : Bytes) → Ends Any (get_array json obj key)
  unfolding get_array
  get_array-Ends obj key = elim (Option-cases (json.find obj key)) [
    | inl missing ↦ rw (Ends, missing) tt
    | inr (value, found) ↦ rw (Ends, found) (as_kind-Ends (json.if_array value))
  ]

-- ===== src/Json/Writer.antt =====
-- A writer of JSON documents, and what it shares with the reader: what is written is found again.
use cppsong.Base.{◌≡◌, Bool, List, [], ◌∷◌, Bytes, Option, none, some, bytes_eq, if◌then◌else◌}
use cppsong.Bytes.{ℤ}
use cppsong.Json.{JsonApi}

-- The values that a document is written with, and what the reader finds in them.
pub record JsonWriter (Value Object : Type 0) : Type 0 where
  pub bool : Bool → Value
  pub string : Bytes → Value
  pub int64 : ℤ → Value
  pub array : List Value → Value
  pub object_value : Object → Value
  pub object : List (Bytes × Value) → Object

unfoldable pub find_member : {Value : Type 0} → Bytes → List (Bytes × Value) → Option Value
find_member key [] = none
find_member key ((name, value) ∷ rest) =
    let next = find_member key rest in if bytes_eq name key then some value else next

pub record JsonLaws {Value Object : Type 0} (json : JsonApi Value Object)
    (writer : JsonWriter Value Object) : Type 0 where
  pub find_object :
      (fields : List (Bytes × Value)) (key : Bytes)
      → json.find (writer.object fields) key ≡ find_member key fields
  pub read_bool : (b : Bool) → json.if_bool (writer.bool b) ≡ some b
  pub read_string : (s : Bytes) → json.if_string (writer.string s) ≡ some s
  pub read_int64 : (i : ℤ) → json.if_int64 (writer.int64 i) ≡ some i
  pub read_object : (o : Object) → json.if_object (writer.object_value o) ≡ some o
  pub read_array : (vs : List Value) → json.if_array (writer.array vs) ≡ some vs
  -- Another kind than a string.
  pub array_no_string : (vs : List Value) → json.if_string (writer.array vs) ≡ none

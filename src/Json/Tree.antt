-- ===== src/Json/Tree.antt =====
-- JSON as a data type, for the runs at fixed inputs: a value of `JsonApi` whose laws hold.
use cppsong.Base.{
  ◌≡◌, refl, ap, Bool, List, [], ◌∷◌, Bytes, Option, none, some, bytes_eq, if◌then◌else◌,
}
use cppsong.Bytes.{ℤ}
use cppsong.Json.{JsonApi}
use cppsong.Json.Writer.{JsonWriter, JsonLaws, find_member}

mutual
  pub data Json : Type 0 where
    bool_value : Bool → Json
    string_value : Bytes → Json
    int_value : ℤ → Json
    array_value : Items → Json
    object_value : Members → Json

  pub data Items : Type 0 where
    no_items : Items
    item : Json → Items → Items

  pub data Members : Type 0 where
    no_members : Members
    member : Bytes → Json → Members → Members

-- Lists, there and back.
abbrev pub to_items : List Json → Items
to_items [] = no_items
to_items (v ∷ vs) = item v (to_items vs)

abbrev pub from_items : Items → List Json
from_items no_items = []
from_items (item v vs) = v ∷ from_items vs

abbrev pub to_members : List (Bytes × Json) → Members
to_members [] = no_members
to_members ((key, v) ∷ vs) = member key v (to_members vs)

abbrev pub find_tree : Members → Bytes → Option Json
find_tree no_members key = none
find_tree (member name v vs) key =
    let next = find_tree vs key in if bytes_eq name key then some v else next

abbrev pub tree_bool : Json → Option Bool
tree_bool (bool_value b) = some b
tree_bool _ = none

abbrev pub tree_string : Json → Option Bytes
tree_string (string_value s) = some s
tree_string _ = none

abbrev pub tree_int64 : Json → Option ℤ
tree_int64 (int_value i) = some i
tree_int64 _ = none

abbrev pub tree_object : Json → Option Members
tree_object (object_value o) = some o
tree_object _ = none

abbrev pub tree_array : Json → Option (List Json)
tree_array (array_value vs) = some (from_items vs)
tree_array _ = none

abbrev pub tree_api : JsonApi Json Members
tree_api = record {
  find = find_tree;
  empty_object = no_members;
  if_bool = tree_bool;
  if_string = tree_string;
  if_int64 = tree_int64;
  if_object = tree_object;
  if_array = tree_array;
}

abbrev pub tree_writer : JsonWriter Json Members
tree_writer = record {
  bool = bool_value;
  string = string_value;
  int64 = int_value;
  array = λ vs. array_value (to_items vs);
  object_value = object_value;
  object = to_members;
}

from-to_items : (vs : List Json) → from_items (to_items vs) ≡ vs
from-to_items [] = refl
from-to_items (v ∷ vs) = ap (◌∷◌ v) (from-to_items vs)

find-to_members :
    (fields : List (Bytes × Json)) (key : Bytes)
    → find_tree (to_members fields) key ≡ find_member key fields
unfolding find_member
find-to_members [] key = refl
find-to_members ((name, v) ∷ fields) key =
    ap (λ (next : Option Json). if bytes_eq name key then some v else next)
      (find-to_members fields key)

pub tree_laws : JsonLaws tree_api tree_writer
tree_laws = record {
  find_object = find-to_members;
  read_bool = λ b. refl;
  read_string = λ s. refl;
  read_int64 = λ i. refl;
  read_object = λ o. refl;
  read_array = λ vs. ap some (from-to_items vs);
  array_no_string = λ vs. refl;
}

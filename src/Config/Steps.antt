-- ===== src/Config/Steps.antt =====
-- Reading one member of a JSON object that was printed, and what follows it.
use cppsong.Base.{ℕ, ◌%◌, ◌^◌, ◌<◌, ◌≡◌, refl, Bool, List, [], ◌∷◌, Bytes, some, map, arith, ge→ltb}
use cppsong.Base.Lists.{All}
use cppsong.Base.Outcome.{Outcome, ok, ◌>>=◌}
use cppsong.Bytes.{pos}
use cppsong.Json.{
  JsonApi, all_strings, int64_u16, found_u16, get_bool, get_string, get_u16, get_string_list,
  get_obj, get_array,
}
use cppsong.Config.Parse.{each_object}
use cppsong.Config.Print.{strings}
use cppsong.Json.Writer.{JsonWriter, find_member, JsonLaws}

pub ok_step :
    {A B : Type 0} (m : Outcome A) (a : A) (f : A → Outcome B) {r : Outcome B}
    → m ≡ ok a
    → f a ≡ r
    → m >>= f ≡ r
ok_step m a f e next = rw e next

module _ {Value Object : Type 0} (json : JsonApi Value Object) (w : JsonWriter Value Object)
    (laws : JsonLaws json w) where
  pub string_step :
      {A : Type 0} (fields : List (Bytes × Value)) (key : Bytes) (a : Bytes) (f : Bytes → Outcome A)
      {r : Outcome A}
      → find_member key fields ≡ some (w.string a)
      → f a ≡ r
      → get_string json (w.object fields) key >>= f ≡ r
  unfolding get_string
  string_step fields key a f member next =
      rw (laws.find_object fields key, member, get_string, laws.read_string a) next

  pub bool_step :
      {A : Type 0} (fields : List (Bytes × Value)) (key : Bytes) (def : Bool) (a : Bool)
      (f : Bool → Outcome A) {r : Outcome A}
      → find_member key fields ≡ some (w.bool a)
      → f a ≡ r
      → get_bool json (w.object fields) key def >>= f ≡ r
  unfolding get_bool
  bool_step fields key def a f member next =
      rw (laws.find_object fields key, member, get_bool, laws.read_bool a) next

  pub object_step :
      {A : Type 0} (fields : List (Bytes × Value)) (key : Bytes) (a : Object)
      (f : Object → Outcome A) {r : Outcome A}
      → find_member key fields ≡ some (w.object_value a)
      → f a ≡ r
      → get_obj json (w.object fields) key >>= f ≡ r
  unfolding get_obj
  object_step fields key a f member next =
      rw (laws.find_object fields key, member, get_obj, laws.read_object a) next

  pub array_step :
      {A : Type 0} (fields : List (Bytes × Value)) (key : Bytes) (a : List Value)
      (f : List Value → Outcome A) {r : Outcome A}
      → find_member key fields ≡ some (w.array a)
      → f a ≡ r
      → get_array json (w.object fields) key >>= f ≡ r
  unfolding get_array
  array_step fields key a f member next =
      rw (laws.find_object fields key, member, get_array, laws.read_array a) next

  pub port_step :
      {A : Type 0} (fields : List (Bytes × Value)) (key : Bytes) (n : ℕ) (f : ℕ → Outcome A)
      {r : Outcome A}
      → n < 2 ^ 16
      → find_member key fields ≡ some (w.int64 (pos n))
      → f n ≡ r
      → get_u16 json (w.object fields) key >>= f ≡ r
  unfolding get_u16 found_u16 int64_u16
  port_step fields key n f {r} small member next =
      let same : n % 2 ^ 16 ≡ n = omega arith in
      rw
        (
          laws.find_object fields key,
          member,
          laws.read_int64 (pos n),
          ge→ltb 0xffff n (omega arith),
          same,
        )
        next

  all_strings-map : (texts : List Bytes) → all_strings json (map w.string texts) ≡ ok texts
  unfolding all_strings
  all_strings-map [] = refl
  all_strings-map (t ∷ ts) = rw (laws.read_string t, all_strings-map ts)

  pub list_step :
      {A : Type 0} (fields : List (Bytes × Value)) (key : Bytes) (a : List Bytes)
      (f : List Bytes → Outcome A) {r : Outcome A}
      → find_member key fields ≡ some (strings w a)
      → f a ≡ r
      → get_string_list json (w.object fields) key >>= f ≡ r
  unfolding get_string_list
  list_step fields key a f member next =
      rw
        (
          laws.find_object fields key,
          member,
          get_string_list,
          laws.array_no_string (map w.string a),
          laws.read_array (map w.string a),
          all_strings-map a,
        )
        next

  pub each_object-map :
      {A : Type 0} (parse : Object → Outcome A) (print : A → Object) (items : List A)
      → All (λ a. parse (print a) ≡ ok a) items
      → each_object json parse (map (λ a. w.object_value (print a)) items) ≡ ok items
  unfolding each_object
  each_object-map parse print [] h = refl
  each_object-map parse print (a ∷ items) (h, hs) =
      rw (laws.read_object (print a), h, each_object-map parse print items hs)

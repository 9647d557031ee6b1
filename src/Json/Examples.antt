-- ===== src/Json/Examples.antt =====
-- Runs of src/utils/json.cpp.
use cppsong.Base.{◌≡◌, refl, [], ◌∷◌, bytes_eq}
use cppsong.Base.Outcome.{ok, throw, json_number_too_large}
use cppsong.Base.Text.{codes}
use cppsong.Bytes.{pos, negsuc}
use cppsong.Json.{get_u16, found_u16, int64_u16, get_string_list, all_strings}
use cppsong.Json.Numbers.{PortOf, int64_of, get_u16-PortOf}
use cppsong.Json.Tree.{Members, member, no_members, int_value, string_value, find_tree, tree_api}

-- { "port": -1, "big": 65536, "name": "x" }
abbrev test_object : Members
test_object = member (codes "port") (int_value (negsuc 0)) (
    member (codes "big") (int_value (pos 65536))
      (member (codes "name") (string_value (codes "x")) no_members))

port_runs :
    (get_u16 tree_api test_object (codes "port") ≡ ok 65535)
    × (get_u16 tree_api test_object (codes "big") ≡ throw json_number_too_large)
    × (get_string_list tree_api test_object (codes "name") ≡ ok (codes "x" ∷ []))
unfolding get_u16 found_u16 int64_u16 get_string_list all_strings bytes_eq
port_runs = (refl, refl, refl)

get_u16-PortOf_example :
    PortOf
      (int64_of tree_api (find_tree test_object (codes "port")))
      (get_u16 tree_api test_object (codes "port"))
get_u16-PortOf_example = get_u16-PortOf tree_api test_object (codes "port")

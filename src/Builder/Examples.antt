-- ===== src/Builder/Examples.antt =====
-- Runs of src/common/builder.cpp and of `parseCidr`. An address is its bytes, and the texts of two
-- addresses are known; a regular expression is a text; the one file holds one rule set.
use cppsong.Base.{
  ◌≡◌, refl, ◌==◌, [], ◌∷◌, Bytes, Option, none, some, bytes_eq, if◌then◌else◌, arith,
}
use cppsong.Base.Lists.{length, replicate}
use cppsong.Base.Outcome.{ok, throw, invalid_cidr_prefix, invalid_argument}
use cppsong.Base.Text.{codes}
use cppsong.Builder.{BuilderApi}
use cppsong.Builder.RuleSets.{Pairs}
use cppsong.Builder.Routes.{IsRouteOf, configured_router-Routes}
use cppsong.Builder.Rules.{
  each, append_rule_sets, build_domain_rule, build_rule, build_route_rule, build_router,
  rule_of_value, load_rule_set, load_rule_sets, find_rule_set, set_rule_set, configured_router,
}
use cppsong.Builder.Uuid.{hex_text, Dashed, nothing, dash, char, build_uuid, build_uuid-hex_text}
use cppsong.Config.Parse.{parse_domain_rule_config, parse_rule_config}
use cppsong.Config.Types.{DomainRuleConfig, RouteRuleConfig, RouterConfig}
use cppsong.Dns.Message.{find}
use cppsong.Ip.{IpApi, IpLaws, ip_address, Address}
use cppsong.Json.{get_array, get_string_list, all_strings}
use cppsong.Json.Tree.{
  Json, member, no_members, item, no_items, array_value, object_value, string_value, tree_api,
}
use cppsong.Router.{Rule, Router, router_match}
use cppsong.Router.Choice.{Chosen}
use cppsong.Router.Cidr.{parse_cidr}
use cppsong.Stoul.{stoul}

abbrev test_address : Bytes → Option Bytes
test_address text =
    if bytes_eq text (codes "10.0.0.0")
    then some (10 ∷ 0 ∷ 0 ∷ 0 ∷ [])
    else if bytes_eq text (codes "::")
    then some (replicate 16 0)
    else none

abbrev test_api : IpApi Bytes
test_api = record { is_v4 = λ a. length a == 4; to_uint = λ a. 0; to_bytes = λ a. replicate 16 0 }

test_laws : IpLaws test_api
test_laws = record { to_bytes_size = λ a. refl }

-- { "rules": [ { "domain_suffix": "ads", "cidr": "10.0.0.0/8" } ] }
abbrev test_document : Json
test_document = object_value (
    member (codes "rules")
      (array_value (
        item
          (object_value (
            member (codes "domain_suffix") (string_value (codes "ads"))
              (member (codes "cidr") (string_value (codes "10.0.0.0/8")) no_members)))
          no_items))
      no_members)

abbrev test_builder : BuilderApi Bytes Bytes Json
test_builder = record {
  make_address = test_address;
  make_regex = some;
  contents = some;
  parse_json = λ content. some test_document;
}

cidr_runs :
    (parse_cidr test_api test_address (codes "10.0.0.0/8")
      ≡ ok (record { network = 10 ∷ 0 ∷ 0 ∷ 0 ∷ []; prefix = 8 }))
    × (parse_cidr test_api test_address (codes "10.0.0.0")
        ≡ ok (record { network = 10 ∷ 0 ∷ 0 ∷ 0 ∷ []; prefix = 32 }))
    × (parse_cidr test_api test_address (codes "10.0.0.0/33") ≡ throw invalid_cidr_prefix)
    × (parse_cidr test_api test_address (codes "10.0.0.0/") ≡ throw invalid_argument)
    × (parse_cidr test_api test_address (codes "::/33")
        ≡ ok (record { network = replicate 16 0; prefix = 33 }))
unfolding parse_cidr find stoul bytes_eq
cidr_runs = (refl, refl, refl, refl, refl)

-- The bytes 0, 1, … 15 with one dash.
abbrev uuid : Bytes
uuid = 0 ∷ 1 ∷ 2 ∷ 3 ∷ 4 ∷ 5 ∷ 6 ∷ 7 ∷ 8 ∷ 9 ∷ 10 ∷ 11 ∷ 12 ∷ 13 ∷ 14 ∷ 15 ∷ []

every_char : (text : Bytes) → Dashed text text
every_char [] = nothing
every_char (c ∷ cs) = char c (every_char cs)

build_uuid-hex_text_example : build_uuid (b'-' ∷ hex_text uuid) ≡ ok uuid
build_uuid-hex_text_example =
    build_uuid-hex_text (b'-' ∷ hex_text uuid) uuid refl (omega arith)
      (dash (every_char (hex_text uuid)))

-- A sign is taken for a digit: "+1" is read as 1.
signed_uuid : build_uuid (codes "+1+1+1+1+1+1+1+1+1+1+1+1+1+1+1+1") ≡ ok (replicate 16 1)
unfolding build_uuid stoul
signed_uuid = refl

abbrev no_domains : DomainRuleConfig
no_domains = record { domain = []; domain_suffix = []; domain_keyword = []; domain_regex = [] }

abbrev route : RouteRuleConfig
route = record {
  rule = record { domain_rule = no_domains; cidr = [] };
  rule_set = codes "set" ∷ [];
  outbound = codes "out";
}

abbrev test_config : RouterConfig
test_config = record {
  rules = route ∷ [];
  rule_sets =
      record { tag = codes "set"; type = codes "local"; path = []; format = codes "source" } ∷ [];
  final = codes "final";
}

abbrev no_rule : Rule Bytes Bytes
no_rule = record {
  domain_rule = record { domain = []; domain_suffix = []; domain_keyword = []; domain_regex = [] };
  cidr = [];
}

abbrev test_router : Router Bytes Bytes
test_router = record {
  rules =
      record {
        rules =
            no_rule
            ∷ record {
              domain_rule = record {
                domain = [];
                domain_suffix = codes "ads" ∷ [];
                domain_keyword = [];
                domain_regex = [];
              };
              cidr = record { network = 10 ∷ 0 ∷ 0 ∷ 0 ∷ []; prefix = 8 } ∷ [];
            }
            ∷ [];
        outbound = codes "out";
      }
      ∷ [];
  final = codes "final";
}

configured_runs : configured_router test_builder test_api tree_api test_config ≡ ok test_router
unfolding configured_router load_rule_sets load_rule_set rule_of_value set_rule_set build_router
    build_route_rule build_rule build_domain_rule append_rule_sets find_rule_set each
    parse_rule_config parse_domain_rule_config get_array get_string_list all_strings parse_cidr find
    stoul bytes_eq
configured_runs = refl

abbrev to_address : Address Bytes
to_address = record { address = ip_address (10 ∷ 1 ∷ 1 ∷ 1 ∷ []); port = 80 }

configured_router-Routes_example :
    (test_router.final ≡ test_config.final)
    × Pairs
        (IsRouteOf test_builder test_api tree_api test_config.rule_sets)
        test_config.rules
        test_router.rules
    × (o : Bytes) × (router_match bytes_eq test_api test_router to_address ≡ ok o)
    × Chosen bytes_eq test_api to_address test_config.final test_router.rules o
configured_router-Routes_example =
    configured_router-Routes test_builder test_api tree_api bytes_eq test_config test_router
      to_address test_laws configured_runs

build_rule_runs : build_rule test_builder test_api tree_api route.rule ≡ ok no_rule
unfolding build_rule build_domain_rule each
build_rule_runs = refl

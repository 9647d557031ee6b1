-- ===== src/Builder/Missing.antt =====
-- A rule that names a rule set which is not loaded.
use cppsong.Base.{◌≡◌, List, [], ◌∷◌, ◌++◌, Bytes, none, Option-cases, inl, inr}
use cppsong.Base.Outcome.{ok, throw, no_rule_set}
use cppsong.Builder.{BuilderApi}
use cppsong.Builder.Rules.{RuleSets, find_rule_set, append_rule_sets, build_rule, build_route_rule}
use cppsong.Config.Types.{RouteRuleConfig}
use cppsong.Ip.{IpApi}
use cppsong.Json.{JsonApi}
use cppsong.Router.{Rule}

append_rule_sets-unknown :
    {Regex Ip : Type 0} (sets : RuleSets Regex Ip) (rules : List (Rule Regex Ip))
    (before : List Bytes) (name : Bytes) (after : List Bytes)
    → find_rule_set name sets ≡ none
    → append_rule_sets sets rules (before ++ name ∷ after) ≡ throw no_rule_set
unfolding append_rule_sets
append_rule_sets-unknown sets rules [] name after unknown = rw unknown
append_rule_sets-unknown sets rules (other ∷ before) name after unknown =
    elim (Option-cases (find_rule_set other sets)) [
      | inl missing ↦ rw missing
      | inr (found, e) ↦
          rw e (append_rule_sets-unknown sets (rules ++ found) before name after unknown)
    ]

-- A route rule whose own rule can be built throws "fail to find rule set" when one of the sets that
-- it names is not loaded, wherever the name stands among the others.
pub build_route_rule-no_rule_set :
    {Regex Ip Value Object : Type 0} (builder : BuilderApi Regex Ip Value) (api : IpApi Ip)
    (json : JsonApi Value Object)
    → (sets : RuleSets Regex Ip) (config : RouteRuleConfig) (own : Rule Regex Ip)
      (before : List Bytes) (name : Bytes) (after : List Bytes)
    → build_rule builder api json config.rule ≡ ok own
    → config.rule_set ≡ before ++ name ∷ after
    → find_rule_set name sets ≡ none
    → build_route_rule builder api json sets config ≡ throw no_rule_set
unfolding build_route_rule
build_route_rule-no_rule_set builder api json sets config own before name after built names
      unknown =
    rw (built, names, append_rule_sets-unknown sets (own ∷ []) before name after unknown)

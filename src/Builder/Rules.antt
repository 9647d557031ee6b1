-- ===== src/Builder/Rules.antt =====
-- The rules, the rule sets and the router.
use cppsong.Base.{List, [], ◌∷◌, ◌++◌, Bytes, Option, none, some, not, bytes_eq, if◌then◌else◌}
use cppsong.Base.Outcome.{
  Outcome, ok, throw, ◌>>=◌, ◌>>◌, throw_if, no_rule_set, unsupported_rule_set_type,
  unsupported_rule_set_format,
}
use cppsong.Base.Text.{codes}
use cppsong.Builder.{BuilderApi, valid_regex, valid_json}
use cppsong.Config.Parse.{parse_rule_config}
use cppsong.Config.Types.{
  DomainRuleConfig, RuleConfig, RouteRuleConfig, RuleSetConfig, RouterConfig,
}
use cppsong.File.{read_file}
use cppsong.Ip.{IpApi}
use cppsong.Json.{JsonApi, as_kind, get_array}
use cppsong.Router.{DomainRule, Rule, RouteRule, Router}
use cppsong.Router.Cidr.{parse_cidr}

-- A loop that makes an element of each item.
unfoldable pub each : {A B : Type 0} → (A → Outcome B) → List A → Outcome (List B)
each build [] = ok []
each build (item ∷ items) = do b ← build item; rest ← each build items; ok (b ∷ rest)

-- `ruleSets_`
abbrev pub RuleSets : Type 0 → Type 0 → Type 0
RuleSets Regex Ip = List (Bytes × List (Rule Regex Ip))

module _ {Regex Ip : Type 0} where
  unfoldable pub find_rule_set : Bytes → RuleSets Regex Ip → Option (List (Rule Regex Ip))
  find_rule_set tag [] = none
  find_rule_set tag ((key, rules) ∷ rest) =
      let next = find_rule_set tag rest in if bytes_eq key tag then some rules else next

  -- `ruleSets_[item.tag] = rules`
  unfoldable pub set_rule_set : Bytes → List (Rule Regex Ip) → RuleSets Regex Ip → RuleSets Regex Ip
  set_rule_set tag rules [] = (tag, rules) ∷ []
  set_rule_set tag rules ((key, old) ∷ rest) =
      let next = set_rule_set tag rules rest in
      if bytes_eq key tag then (key, rules) ∷ rest else (key, old) ∷ next

  -- `auto it = ruleSets_.find(ruleSet); if (it == ruleSets_.end()) throw …`
  abbrev pub known_rule_set : Option (List (Rule Regex Ip)) → Outcome (List (Rule Regex Ip))
  known_rule_set none = throw no_rule_set
  known_rule_set (some rules) = ok rules

  -- `rules.append_range(it->second)` for each of the names.
  unfoldable pub append_rule_sets :
      RuleSets Regex Ip → List (Rule Regex Ip) → List Bytes → Outcome (List (Rule Regex Ip))
  append_rule_sets rule_sets rules [] = ok rules
  append_rule_sets rule_sets rules (name ∷ names) = do
    found ← known_rule_set (find_rule_set name rule_sets)
    append_rule_sets rule_sets (rules ++ found) names

module _ {Regex Ip Value Object : Type 0} (builder : BuilderApi Regex Ip Value) (api : IpApi Ip)
    (json : JsonApi Value Object) where
  unfoldable pub build_domain_rule : DomainRuleConfig → Outcome (DomainRule Regex)
  build_domain_rule config = do
    regexs ← each (λ item. valid_regex (builder.make_regex item)) config.domain_regex
    ok (record {
      domain = config.domain;
      domain_suffix = config.domain_suffix;
      domain_keyword = config.domain_keyword;
      domain_regex = regexs;
    })

  unfoldable pub build_rule : RuleConfig → Outcome (Rule Regex Ip)
  build_rule config = do
    networks ← each (parse_cidr api builder.make_address) config.cidr
    domain_rule ← build_domain_rule config.domain_rule
    ok (record { domain_rule = domain_rule; cidr = networks })

  unfoldable pub build_route_rule :
      RuleSets Regex Ip → RouteRuleConfig → Outcome (RouteRule Regex Ip)
  build_route_rule rule_sets config = do
    own ← build_rule config.rule
    rules ← append_rule_sets rule_sets (own ∷ []) config.rule_set
    ok (record { rules = rules; outbound = config.outbound })

  unfoldable pub build_router : RuleSets Regex Ip → RouterConfig → Outcome (Router Regex Ip)
  build_router rule_sets config = do
    rules ← each (build_route_rule rule_sets) config.rules
    ok (record { rules = rules; final = config.final })

  -- One entry of the array of a rule set.
  unfoldable pub rule_of_value : Value → Outcome (Rule Regex Ip)
  rule_of_value value = do
    obj ← as_kind (json.if_object value)
    rule_config ← parse_rule_config json obj
    build_rule rule_config

  unfoldable pub load_rule_set : RuleSetConfig → Outcome (List (Rule Regex Ip))
  load_rule_set item = do
    throw_if (not (bytes_eq item.type (codes "local"))) unsupported_rule_set_type
    let content = read_file builder.contents item.path
    throw_if (not (bytes_eq item.format (codes "source"))) unsupported_rule_set_format
    value ← valid_json (builder.parse_json content)
    obj ← as_kind (json.if_object value)
    rules_array ← get_array json obj (codes "rules")
    each rule_of_value rules_array

  -- `loadRuleSets`, from the sets that are there.
  unfoldable pub load_rule_sets :
      RuleSets Regex Ip → List RuleSetConfig → Outcome (RuleSets Regex Ip)
  load_rule_sets rule_sets [] = ok rule_sets
  load_rule_sets rule_sets (item ∷ items) = do
    rules ← load_rule_set item
    load_rule_sets (set_rule_set item.tag rules rule_sets) items

  -- The constructor of `Builder`, and `buildRouter`.
  unfoldable pub configured_router : RouterConfig → Outcome (Router Regex Ip)
  configured_router config = do
    rule_sets ← load_rule_sets [] config.rule_sets
    build_router rule_sets config

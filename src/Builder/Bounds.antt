-- ===== src/Builder/Bounds.antt =====
-- Every network of a router that is built has a prefix that fits its family, so that routing with
-- it always returns.
use cppsong.Base.{
  ◌≡◌, List, [], ◌∷◌, ◌++◌, Bool, not, Bytes, Option, none, some, bytes_eq, Bool-cases, inl, inr,
}
use cppsong.Base.Ends.{Ends, bind-Ends, throw_if-Ends, Ends-ok}
use cppsong.Base.Lists.{All, All-append}
use cppsong.Base.Outcome.{Outcome, ok, unsupported_rule_set_type, unsupported_rule_set_format}
use cppsong.Base.Text.{codes}
use cppsong.Builder.{BuilderApi, valid_regex, valid_json}
use cppsong.Builder.Rules.{
  each, RuleSets, find_rule_set, set_rule_set, known_rule_set, append_rule_sets, build_domain_rule,
  build_rule, build_route_rule, build_router, rule_of_value, load_rule_set, load_rule_sets,
  configured_router,
}
use cppsong.Config.Types.{
  DomainRuleConfig, RuleConfig, RouteRuleConfig, RuleSetConfig, RouterConfig,
}
use cppsong.File.{read_file}
use cppsong.Ip.{IpApi, IpLaws, Address}
use cppsong.Json.{JsonApi, as_kind, get_array}
use cppsong.Json.Total.{Any, as_kind-Ends, get_string_list-Ends, get_array-Ends}
use cppsong.Config.Parse.{parse_domain_rule_config, parse_rule_config}
use cppsong.Router.{Rule, Router, router_match}
use cppsong.Router.Choice.{Chosen, NetworksFit, router_match-Chosen}
use cppsong.Router.Cidr.{parse_cidr, parse_cidr-PrefixFits}
use cppsong.Router.Network.{PrefixFits}

each-Ends :
    {A B : Type 0} (P : B → Type 0) (build : A → Outcome B) (items : List A)
    → ((a : A) → Ends P (build a))
    → Ends (All P) (each build items)
unfolding each
each-Ends P build [] h = tt
each-Ends P build (item ∷ items) h = bind-Ends (All P) P (build item) _ (h item) λ b p.
    bind-Ends (All P) (All P) (each build items) _ (each-Ends P build items h) λ rest ps. (p, ps)

module _ {Regex Ip : Type 0} (api : IpApi Ip) where
  abbrev RuleFits : Rule Regex Ip → Type 0
  RuleFits rule = All (PrefixFits api) rule.cidr

  abbrev SetsFit : RuleSets Regex Ip → Type 0
  SetsFit = All (λ entry. All RuleFits entry.1)

  find_rule_set-Ends :
      (tag : Bytes) (sets : RuleSets Regex Ip)
      → SetsFit sets
      → Ends (All RuleFits) (known_rule_set (find_rule_set tag sets))
  unfolding find_rule_set
  find_rule_set-Ends tag [] fits = tt
  find_rule_set-Ends tag ((key, rules) ∷ rest) (fit, fits) = elim (Bool-cases (bytes_eq key tag)) [
    | inl same ↦ rw same fit
    | inr other ↦ rw other (find_rule_set-Ends tag rest fits)
  ]

  set_rule_set-SetsFit :
      (tag : Bytes) (rules : List (Rule Regex Ip)) (sets : RuleSets Regex Ip)
      → All RuleFits rules
      → SetsFit sets
      → SetsFit (set_rule_set tag rules sets)
  unfolding set_rule_set
  set_rule_set-SetsFit tag rules [] new fits = (new, tt)
  set_rule_set-SetsFit tag rules ((key, old) ∷ rest) new (fit, fits) =
      elim (Bool-cases (bytes_eq key tag)) [
        | inl same ↦ rw same (new, fits)
        | inr other ↦ rw other (fit, set_rule_set-SetsFit tag rules rest new fits)
      ]

  append_rule_sets-Ends :
      (sets : RuleSets Regex Ip) (rules : List (Rule Regex Ip)) (names : List Bytes)
      → SetsFit sets
      → All RuleFits rules
      → Ends (All RuleFits) (append_rule_sets sets rules names)
  unfolding append_rule_sets
  append_rule_sets-Ends sets rules [] fits have = have
  append_rule_sets-Ends sets rules (name ∷ names) fits have =
      bind-Ends (All RuleFits) (All RuleFits) (known_rule_set (find_rule_set name sets)) _
        (find_rule_set-Ends name sets fits)
        λ found more.
          append_rule_sets-Ends sets (rules ++ found) names fits
            (All-append RuleFits rules found have more)

module _ {Regex Ip Value Object : Type 0} (builder : BuilderApi Regex Ip Value) (api : IpApi Ip)
    (json : JsonApi Value Object) where
  valid_regex-Ends : (r : Option Regex) → Ends Any (valid_regex r)
  valid_regex-Ends none = tt
  valid_regex-Ends (some r) = tt

  build_domain_rule-Ends :
      (config : DomainRuleConfig) → Ends Any (build_domain_rule builder api json config)
  unfolding build_domain_rule
  build_domain_rule-Ends config =
      bind-Ends Any (All Any)
        (each (λ item. valid_regex (builder.make_regex item)) config.domain_regex) _
        (each-Ends Any _ config.domain_regex (λ item. valid_regex-Ends (builder.make_regex item)))
        λ _ _. tt

  build_rule-Ends : (config : RuleConfig) → Ends (RuleFits api) (build_rule builder api json config)
  unfolding build_rule
  build_rule-Ends config =
      bind-Ends (RuleFits api) (All (PrefixFits api))
        (each (parse_cidr api builder.make_address) config.cidr) _
        (each-Ends (PrefixFits api) _ config.cidr (parse_cidr-PrefixFits api builder.make_address))
        λ networks fit.
          bind-Ends (RuleFits api) Any (build_domain_rule builder api json config.domain_rule) _
            (build_domain_rule-Ends config.domain_rule) λ _ _. fit

  build_route_rule-Ends :
      (sets : RuleSets Regex Ip) (config : RouteRuleConfig)
      → SetsFit api sets
      → Ends (λ r. All (RuleFits api) r.rules) (build_route_rule builder api json sets config)
  unfolding build_route_rule
  build_route_rule-Ends sets config fits =
      bind-Ends (λ r. All (RuleFits api) r.rules) (RuleFits api)
        (build_rule builder api json config.rule) _ (build_rule-Ends config.rule)
        λ own fit.
          bind-Ends (λ r. All (RuleFits api) r.rules) (All (RuleFits api))
            (append_rule_sets sets (own ∷ []) config.rule_set) _
            (append_rule_sets-Ends api sets (own ∷ []) config.rule_set fits (fit, tt))
            λ rules have. have

  build_router-Ends :
      (sets : RuleSets Regex Ip) (config : RouterConfig)
      → SetsFit api sets
      → Ends
          (λ r. All (λ rr. All (RuleFits api) rr.rules) r.rules)
          (build_router builder api json sets config)
  unfolding build_router
  build_router-Ends sets config fits =
      bind-Ends (λ r. All (λ rr. All (RuleFits api) rr.rules) r.rules)
        (All (λ rr. All (RuleFits api) rr.rules))
        (each (build_route_rule builder api json sets) config.rules) _
        (each-Ends (λ rr. All (RuleFits api) rr.rules) _ config.rules
          (λ c. build_route_rule-Ends sets c fits))
        λ rules have. have

  parse_domain_rule_config-Ends : (obj : Object) → Ends Any (parse_domain_rule_config json obj)
  unfolding parse_domain_rule_config
  parse_domain_rule_config-Ends obj =
      bind-Ends Any Any _ _ (get_string_list-Ends json obj (codes "domain")) λ _ _.
        bind-Ends Any Any _ _ (get_string_list-Ends json obj (codes "domain_suffix")) λ _ _.
          bind-Ends Any Any _ _ (get_string_list-Ends json obj (codes "domain_keyword")) λ _ _.
            bind-Ends Any Any _ _ (get_string_list-Ends json obj (codes "domain_regex")) λ _ _. tt

  parse_rule_config-Ends : (obj : Object) → Ends Any (parse_rule_config json obj)
  unfolding parse_rule_config
  parse_rule_config-Ends obj =
      bind-Ends Any Any _ _ (parse_domain_rule_config-Ends obj)
        λ _ _. bind-Ends Any Any _ _ (get_string_list-Ends json obj (codes "cidr")) λ _ _. tt

  rule_of_value-Ends : (value : Value) → Ends (RuleFits api) (rule_of_value builder api json value)
  unfolding rule_of_value
  rule_of_value-Ends value =
      bind-Ends (RuleFits api) Any (as_kind (json.if_object value)) _
        (as_kind-Ends (json.if_object value))
        λ obj _.
          bind-Ends (RuleFits api) Any (parse_rule_config json obj) _ (parse_rule_config-Ends obj)
            λ config _. build_rule-Ends config

  valid_json-Ends : (v : Option Value) → Ends Any (valid_json v)
  valid_json-Ends none = tt
  valid_json-Ends (some v) = tt

  pub load_rule_set-Ends :
      (item : RuleSetConfig) → Ends (All (RuleFits api)) (load_rule_set builder api json item)
  unfolding load_rule_set
  load_rule_set-Ends item =
      let P = λ (rules : List (Rule Regex Ip)). All (RuleFits api) rules in
      throw_if-Ends P (not (bytes_eq item.type (codes "local"))) unsupported_rule_set_type _ λ _.
        throw_if-Ends P (not (bytes_eq item.format (codes "source"))) unsupported_rule_set_format _
          λ _.
            bind-Ends P Any (valid_json (builder.parse_json (read_file builder.contents item.path)))
              _ (valid_json-Ends (builder.parse_json (read_file builder.contents item.path)))
              λ value _.
                bind-Ends P Any (as_kind (json.if_object value)) _
                  (as_kind-Ends (json.if_object value))
                  λ obj _.
                    bind-Ends P Any (get_array json obj (codes "rules")) _
                      (get_array-Ends json obj (codes "rules"))
                      λ rules _. each-Ends (RuleFits api) _ rules rule_of_value-Ends

  load_rule_sets-Ends :
      (sets : RuleSets Regex Ip) (items : List RuleSetConfig)
      → SetsFit api sets
      → Ends (SetsFit api) (load_rule_sets builder api json sets items)
  unfolding load_rule_sets
  load_rule_sets-Ends sets [] fits = fits
  load_rule_sets-Ends sets (item ∷ items) fits =
      bind-Ends (SetsFit api) (All (RuleFits api)) (load_rule_set builder api json item) _
        (load_rule_set-Ends item)
        λ rules fit.
          load_rule_sets-Ends (set_rule_set item.tag rules sets) items
            (set_rule_set-SetsFit api item.tag rules sets fit fits)

  -- The rule sets are loaded and the router is built, or an exception is thrown; and every network
  -- of the router, be it of a rule or of a rule set, has a prefix that fits its family.
  pub configured_router-NetworksFit :
      (regex_match : Regex → Bytes → Bool) (config : RouterConfig)
      → Ends (λ r. NetworksFit regex_match api r.rules) (configured_router builder api json config)
  unfolding configured_router
  configured_router-NetworksFit regex_match config =
      bind-Ends (λ r. NetworksFit regex_match api r.rules) (SetsFit api)
        (load_rule_sets builder api json [] config.rule_sets) _
        (load_rule_sets-Ends [] config.rule_sets tt) λ sets fits. build_router-Ends sets config fits

  -- Whatever the configuration is, a router that is built from it gives an outbound for every
  -- address: the one of the first route rule that matches, or the final one.
  pub configured_router-Chosen :
      (regex_match : Regex → Bytes → Bool) (config : RouterConfig) (router : Router Regex Ip)
      (address : Address Ip)
      → IpLaws api
      → configured_router builder api json config ≡ ok router
      → (o : Bytes) × (router_match regex_match api router address ≡ ok o)
        × Chosen regex_match api address router.final router.rules o
  configured_router-Chosen regex_match config router address laws built =
      router_match-Chosen regex_match api laws router address (
        Ends-ok (λ r. NetworksFit regex_match api r.rules) _
          (configured_router-NetworksFit regex_match config) built)

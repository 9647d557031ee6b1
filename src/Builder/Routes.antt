-- ===== src/Builder/Routes.antt =====
-- What a router has of the configuration that it is built from: its routes in order, with their own
-- rules and those of their rule sets.
use cppsong.Base.{◌≡◌, refl, subst, List, [], ◌∷◌, ◌++◌, Bytes, Option, none, some, Bool}
use cppsong.Base.Ends.{Ends, bind-Ends, Ends-ok}
use cppsong.Base.Outcome.{ok}
use cppsong.Builder.{BuilderApi, valid_regex}
use cppsong.Builder.Bounds.{configured_router-Chosen}
use cppsong.Builder.Rules.{
  each, RuleSets, append_rule_sets, build_domain_rule, build_rule, build_route_rule, build_router,
  load_rule_sets, configured_router,
}
use cppsong.Config.Types.{RuleConfig, RouteRuleConfig, RuleSetConfig, RouterConfig}
use cppsong.Ip.{IpApi, IpLaws, Address}
use cppsong.Json.{JsonApi}
use cppsong.Router.{Rule, RouteRule, Router, router_match}
use cppsong.Router.Choice.{Chosen}
use cppsong.Router.Cidr.{parse_cidr, parse_cidr-PrefixFits}
use cppsong.Builder.RuleSets.{
  Pairs, each-Pairs, Ends-known, All-Some, joined, IsRuleSet, AreRuleSets,
  load_rule_sets-AreRuleSets, append_rule_sets-Pairs,
}

module _ {Regex Ip Value Object : Type 0} (builder : BuilderApi Regex Ip Value) (api : IpApi Ip)
    (json : JsonApi Value Object) where
  -- The domain lists are those of the configuration, and the expressions and networks are made of
  -- its texts.
  pub record IsRuleOf (config : RuleConfig) (rule : Rule Regex Ip) : Type 0 where
    pub domain : rule.domain_rule.domain ≡ config.domain_rule.domain
    pub domain_suffix : rule.domain_rule.domain_suffix ≡ config.domain_rule.domain_suffix
    pub domain_keyword : rule.domain_rule.domain_keyword ≡ config.domain_rule.domain_keyword
    pub domain_regex :
        Pairs
          (λ text regex. builder.make_regex text ≡ some regex)
          config.domain_rule.domain_regex
          rule.domain_rule.domain_regex
    pub cidr :
        Pairs
          (λ text network. parse_cidr api builder.make_address text ≡ ok network)
          config.cidr
          rule.cidr

  -- The route has the configured outbound, and first the rule of its own, then those of the rule
  -- sets that it names, in order.
  pub record IsRouteOf (items : List RuleSetConfig) (config : RouteRuleConfig)
      (route : RouteRule Regex Ip) : Type 0 where
    pub outbound : route.outbound ≡ config.outbound
    pub own : Rule Regex Ip
    pub named : List (List (Rule Regex Ip))
    pub rules : route.rules ≡ own ∷ joined named
    pub own_rule : IsRuleOf config.rule own
    pub rule_sets : Pairs (IsRuleSet builder api json items) config.rule_set named

  build_rule-IsRuleOf :
      (config : RuleConfig) → Ends (IsRuleOf config) (build_rule builder api json config)
  unfolding build_rule build_domain_rule
  build_rule-IsRuleOf config =
      let P = IsRuleOf config in
      bind-Ends P
        (Pairs (λ text network. parse_cidr api builder.make_address text ≡ ok network) config.cidr)
        (each (parse_cidr api builder.make_address) config.cidr) _
        (each-Pairs _ (parse_cidr api builder.make_address) config.cidr (λ text.
          Ends-known _ (parse_cidr api builder.make_address text)
            (parse_cidr-PrefixFits api builder.make_address text)))
        λ networks of_texts.
          bind-Ends P (λ rule. IsRuleOf config (record { domain_rule = rule; cidr = networks }))
            (build_domain_rule builder api json config.domain_rule) _
            (bind-Ends (λ rule. IsRuleOf config (record { domain_rule = rule; cidr = networks }))
              (Pairs (λ text regex. builder.make_regex text ≡ some regex)
                config.domain_rule.domain_regex)
              (each (λ item. valid_regex (builder.make_regex item)) config.domain_rule.domain_regex)
              _
              (each-Pairs _ (λ item. valid_regex (builder.make_regex item))
                config.domain_rule.domain_regex (λ text. known_regex (builder.make_regex text)))
              λ regexs regexs_of. record {
                domain = refl;
                domain_suffix = refl;
                domain_keyword = refl;
                domain_regex = regexs_of;
                cidr = of_texts;
              })
            λ rule made. made
    where
      known_regex : (made : Option Regex) → Ends (λ regex. made ≡ some regex) (valid_regex made)
      known_regex none = tt
      known_regex (some regex) = refl

  build_route_rule-IsRouteOf :
      (items : List RuleSetConfig) (sets : RuleSets Regex Ip) (config : RouteRuleConfig)
      → AreRuleSets builder api json items sets
      → Ends (IsRouteOf items config) (build_route_rule builder api json sets config)
  unfolding build_route_rule
  build_route_rule-IsRouteOf items sets config are =
      bind-Ends (IsRouteOf items config) (IsRuleOf config.rule)
        (build_rule builder api json config.rule) _ (build_rule-IsRuleOf config.rule)
        λ own is_own.
          bind-Ends (IsRouteOf items config)
            (λ all.
              (named : List (List (Rule Regex Ip))) × (all ≡ (own ∷ []) ++ joined named)
              × Pairs (IsRuleSet builder api json items) config.rule_set named)
            (append_rule_sets sets (own ∷ []) config.rule_set) _
            (append_rule_sets-Pairs builder api json items sets (own ∷ []) config.rule_set are)
            λ all (named, same, sets_are). record {
              outbound = refl;
              own = own;
              named = named;
              rules = same;
              own_rule = is_own;
              rule_sets = sets_are;
            }

  -- The final outbound is the configured one, and the routes are those of the configured rules.
  abbrev pub IsRouterOf : RouterConfig → Router Regex Ip → Type 0
  IsRouterOf config router =
      (router.final ≡ config.final) × Pairs (IsRouteOf config.rule_sets) config.rules router.rules

  configured_router-IsRouterOf :
      (config : RouterConfig) → Ends (IsRouterOf config) (configured_router builder api json config)
  unfolding configured_router build_router
  configured_router-IsRouterOf config =
      bind-Ends (IsRouterOf config) (AreRuleSets builder api json config.rule_sets)
        (load_rule_sets builder api json [] config.rule_sets) _
        (load_rule_sets-AreRuleSets builder api json config.rule_sets [] config.rule_sets
          (All-Some config.rule_sets) tt)
        λ sets are.
          bind-Ends (IsRouterOf config) (Pairs (IsRouteOf config.rule_sets) config.rules)
            (each (build_route_rule builder api json sets) config.rules) _
            (each-Pairs _ (build_route_rule builder api json sets) config.rules
              (λ rule. build_route_rule-IsRouteOf config.rule_sets sets rule are))
            λ rules routes. (refl, routes)

  -- A router that is built from a configuration has its final outbound, and for each of its route
  -- rules, in order, a route with the outbound, whose rules are first the rule's own, with the
  -- domains, suffixes and keywords of the configuration and the expressions and networks that its
  -- texts make, and then those that each named rule set loads as; and for every address it gives
  -- the outbound of the first of these routes that matches, or the final one, where an IP address
  -- matches a network of its family.
  pub configured_router-Routes :
      (regex_match : Regex → Bytes → Bool) (config : RouterConfig) (router : Router Regex Ip)
      (address : Address Ip)
      → IpLaws api
      → configured_router builder api json config ≡ ok router
      → (router.final ≡ config.final)
        × Pairs (IsRouteOf config.rule_sets) config.rules router.rules
        × (o : Bytes) × (router_match regex_match api router address ≡ ok o)
        × Chosen regex_match api address config.final router.rules o
  configured_router-Routes regex_match config router address laws built =
      let (same, routes) =
        Ends-ok (IsRouterOf config) _ (configured_router-IsRouterOf config) built in
      let (o, matched, chosen) =
        configured_router-Chosen builder api json regex_match config router address laws built in
      (
        same,
        routes,
        o,
        matched,
        subst (λ final. Chosen regex_match api address final router.rules o) same chosen,
      )

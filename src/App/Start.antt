-- ===== src/App/Start.antt =====
-- `App::run`, up to `io_.run()`: all parts of the program from the text of the configuration, and
-- the sessions of an app that was built so.
use cppsong.Base.{ℕ, ◌≡◌, ◌∙◌, sym, subst, ap, Bool, inl, inr, List, [], ◌∷◌, Bytes, Option}
use cppsong.Base.Ends.{Ends-ok}
use cppsong.Base.Lists.{All, map-All}
use cppsong.Base.Outcome.{>>=-ok, Outcome, ok, ◌>>=◌}
use cppsong.App.{Outbounds, add_outbounds, sniffed_address, handle_session}
use cppsong.App.Known.{IsKnown, add_outbounds-IsKnown}
use cppsong.App.Dispatch.{Dispatched, handle_session-Dispatched}
use cppsong.Builder.{BuilderApi, valid_json}
use cppsong.Builder.Bounds.{configured_router-NetworksFit}
use cppsong.Builder.Dns.{ServerSpec, build_dns_center}
use cppsong.Builder.Outbound.{Outbound, MixedInbound, build_inbound, build_outbound}
use cppsong.Builder.Rules.{
  RuleSets, each, append_rule_sets, build_rule, build_route_rule, build_router, load_rule_sets,
  configured_router,
}
use cppsong.Config.Parse.{pares_app_config}
use cppsong.Config.Types.{AppConfig, OutboundConfig, RouteRuleConfig, TlsServerConfig}
use cppsong.Dns.Center.{DnsServer, DnsCenter}
use cppsong.File.{read_file}
use cppsong.Inbound.{Session}
use cppsong.Ip.{IpApi, IpLaws}
use cppsong.Json.{JsonApi, as_kind}
use cppsong.Router.{RouteRule, Router}
use cppsong.Router.Any.{Some}
use cppsong.Router.Choice.{NetworksFit}
use cppsong.Sniff.{sniff_domain}

-- What `run` has made when the event loop begins.
pub record Started (Regex Ip : Type 0) : Type 0 where
  pub dns_endpoint : Option (Ip × ℕ)
  pub dns_center : DnsCenter Regex Ip
  pub router : Router Regex Ip
  pub outbounds : Outbounds (Outbound Ip)
  pub inbounds : List (MixedInbound Ip)

module _ {Regex Ip Value Object : Type 0} (builder : BuilderApi Regex Ip Value) (api : IpApi Ip)
    (json : JsonApi Value Object) (serve : ServerSpec Ip → DnsServer) where
  -- `run` behind the parsing.
  unfoldable pub start_config : AppConfig → Outcome (Started Regex Ip)
  start_config config = do
    rule_sets ← load_rule_sets builder api json [] config.router.rule_sets
    dns ← build_dns_center builder api json serve rule_sets config.dns
    router ← build_router builder api json rule_sets config.router
    outbounds ←
        add_outbounds (λ (item : OutboundConfig). item.tag) (build_outbound builder.make_address)
          config.outbounds []
    inbounds ← each (build_inbound builder.make_address) config.inbounds
    ok (record {
      dns_endpoint = dns.0;
      dns_center = dns.1;
      router = router;
      outbounds = outbounds;
      inbounds = inbounds;
    })

  unfoldable pub start : TlsServerConfig → Bytes → Outcome (Started Regex Ip)
  unfolding start_config
  start unset config_path = do
    value ← valid_json (builder.parse_json (read_file builder.contents config_path))
    obj ← as_kind (json.if_object value)
    config ← pares_app_config json unset obj
    start_config config

  -- The outbound with the tag is configured.
  abbrev pub IsConfigured : AppConfig → Bytes → Type 0
  IsConfigured config tag = Some (λ item. item.tag ≡ tag) config.outbounds

  -- The outbounds that the routes name, and the final one, are configured.
  pub record IsClosed (config : AppConfig) : Type 0 where
    pub rules_known : All (λ rule. IsConfigured config rule.outbound) config.router.rules
    pub final_known : IsConfigured config config.router.final

  build_route_rule-outbound :
      (sets : RuleSets Regex Ip) (config : RouteRuleConfig) (rule : RouteRule Regex Ip)
      → build_route_rule builder api json sets config ≡ ok rule
      → rule.outbound ≡ config.outbound
  unfolding build_route_rule
  build_route_rule-outbound sets config rule built =
      let (own, own_built, rest) = >>=-ok (build_rule builder api json config.rule) _ built in
      let (rules, appended, done) =
        >>=-ok (append_rule_sets sets (own ∷ []) config.rule_set) _ rest in
      let same : record { rules = rules; outbound = config.outbound } ≡ rule = cc in
      sym (ap (λ (r : RouteRule Regex Ip). r.outbound) same)

  each-outbounds :
      (sets : RuleSets Regex Ip) (P : Bytes → Type 0) (items : List RouteRuleConfig)
      (rules : List (RouteRule Regex Ip))
      → each (build_route_rule builder api json sets) items ≡ ok rules
      → All (λ item. P item.outbound) items
      → All (λ rule. P rule.outbound) rules
  unfolding each
  each-outbounds sets P [] rules built all =
      let same : [] ≡ rules = cc in subst (All (λ (r : RouteRule Regex Ip). P r.outbound)) same tt
  each-outbounds sets P (item ∷ items) rules built all =
      let (b, b_built, rest) = >>=-ok (build_route_rule builder api json sets item) _ built in
      let (bs, bs_built, done) =
        >>=-ok (each (build_route_rule builder api json sets) items) _ rest in
      let same : b ∷ bs ≡ rules = cc in
      subst (All (λ (r : RouteRule Regex Ip). P r.outbound)) same (
        subst P (sym (build_route_rule-outbound sets item b b_built)) all.0,
        each-outbounds sets P items bs bs_built all.1,
      )

  IsConfigured-IsKnown :
      (outbounds : Outbounds (Outbound Ip)) (tag : Bytes) (items : List OutboundConfig)
      → All (λ item. IsKnown outbounds item.tag) items
      → Some (λ item. item.tag ≡ tag) items
      → IsKnown outbounds tag
  IsConfigured-IsKnown outbounds tag [] all found = absurd found
  IsConfigured-IsKnown outbounds tag (item ∷ items) all (inl this) =
      subst (IsKnown outbounds) this all.0
  IsConfigured-IsKnown outbounds tag (item ∷ items) all (inr found) =
      IsConfigured-IsKnown outbounds tag items all.1 found

  -- What an app that was started has of its configuration.
  record Fits (regex_match : Regex → Bytes → Bool) (app : Started Regex Ip) : Type 0 where
    networks : NetworksFit regex_match api app.router.rules
    final_known : IsKnown app.outbounds app.router.final
    rules_known : All (λ r. IsKnown app.outbounds r.outbound) app.router.rules

  assembled-Fits :
      (regex_match : Regex → Bytes → Bool) (config : AppConfig) (sets : RuleSets Regex Ip)
      (app : Started Regex Ip)
      → IsClosed config
      → load_rule_sets builder api json [] config.router.rule_sets ≡ ok sets
      → build_router builder api json sets config.router ≡ ok app.router
      → add_outbounds
          (λ (item : OutboundConfig). item.tag)
          (build_outbound builder.make_address)
          config.outbounds
          []
        ≡ ok app.outbounds
      → Fits regex_match app
  unfolding build_router configured_router
  assembled-Fits regex_match config sets app closed loaded built added =
      let whole : configured_router builder api json config.router ≡ ok app.router =
        rw loaded built in
      let (rules, rules_built, router_done) =
        >>=-ok (each (build_route_rule builder api json sets) config.router.rules) _ built in
      let same : record { rules = rules; final = config.router.final } ≡ app.router = cc in
      let all =
        add_outbounds-IsKnown (λ (item : OutboundConfig). item.tag)
          (build_outbound builder.make_address) config.outbounds [] app.outbounds added in
      let known = λ (tag : Bytes) (found : IsConfigured config tag).
        IsConfigured-IsKnown app.outbounds tag config.outbounds all found in
      record {
        networks =
            Ends-ok (λ r. NetworksFit regex_match api r.rules)
              (configured_router builder api json config.router)
              (configured_router-NetworksFit builder api json regex_match config.router) whole;
        final_known =
            subst (λ (r : Router Regex Ip). IsKnown app.outbounds r.final) same
              (known config.router.final closed.final_known);
        rules_known =
            subst
              (λ (r : Router Regex Ip). All (λ rule. IsKnown app.outbounds rule.outbound) r.rules)
              same
              (each-outbounds sets (IsKnown app.outbounds) config.router.rules rules rules_built (
                map-All config.router.rules (λ rule found. known rule.outbound found)
                  closed.rules_known));
      }

  -- The router and the outbounds of an app come from its configuration.
  pub start_config-parts :
      (config : AppConfig) (app : Started Regex Ip)
      → start_config config ≡ ok app
      → (sets : RuleSets Regex Ip) × (load_rule_sets builder api json [] config.router.rule_sets
          ≡ ok sets)
        × (build_router builder api json sets config.router ≡ ok app.router)
        × (add_outbounds
              (λ (item : OutboundConfig). item.tag)
              (build_outbound builder.make_address)
              config.outbounds
              []
            ≡ ok app.outbounds)
  unfolding start_config
  start_config-parts config app started =
      let (sets, loaded, rest1) =
        >>=-ok (load_rule_sets builder api json [] config.router.rule_sets) _ started in
      let (dns, dns_built, rest2) =
        >>=-ok (build_dns_center builder api json serve sets config.dns) _ rest1 in
      let (router, router_built, rest3) =
        >>=-ok (build_router builder api json sets config.router) _ rest2 in
      let (outbounds, added, rest4) =
        >>=-ok
          (add_outbounds (λ (item : OutboundConfig). item.tag) (build_outbound builder.make_address)
            config.outbounds [])
          _ rest3 in
      let (inbounds, inbounds_built, done) =
        >>=-ok (each (build_inbound builder.make_address) config.inbounds) _ rest4 in
      let app' : Started Regex Ip = record {
        dns_endpoint = dns.0;
        dns_center = dns.1;
        router = router;
        outbounds = outbounds;
        inbounds = inbounds;
      } in
      let same : app' ≡ app = cc in
      (
        sets,
        loaded,
        router_built ∙ ap (λ (a : Started Regex Ip). ok a.router) same,
        added ∙ ap (λ (a : Started Regex Ip). ok a.outbounds) same,
      )

  start_config-Fits :
      (regex_match : Regex → Bytes → Bool) (config : AppConfig) (app : Started Regex Ip)
      → IsClosed config
      → start_config config ≡ ok app
      → Fits regex_match app
  start_config-Fits regex_match config app closed started =
      let (sets, loaded, built, added) = start_config-parts config app started in
      assembled-Fits regex_match config sets app closed loaded built added

  -- In an app that was started from a configuration whose routes, and whose final outbound, name
  -- outbounds that it has, a session of which it is known what was sniffed goes through the outbound
  -- that the rules choose for its address, which is the sniffed domain unless that is empty; no null
  -- pointer is called, and the outbounds stay as they are.
  pub start_config-Dispatched :
      {C R : Type 0} (regex_match : Regex → Bytes → Bool)
      (connect : Outbound Ip → Session Ip → Outcome R) (relay : C → R → Outcome (Unit {0}))
      → (config : AppConfig) (app : Started Regex Ip) (conn : C) (session : Session Ip)
        (sniffed : Bytes)
      → IpLaws api
      → IsClosed config
      → start_config config ≡ ok app
      → sniff_domain session.first_data ≡ ok sniffed
      → Dispatched regex_match api connect relay app.router app.outbounds conn
          (record {
            address = sniffed_address sniffed session.address;
            first_data = session.first_data;
          })
          (handle_session regex_match api connect relay app.router app.outbounds conn session)
  start_config-Dispatched regex_match connect relay config app conn session sniffed laws closed
        started found =
      let fits = start_config-Fits regex_match config app closed started in
      handle_session-Dispatched regex_match api connect relay app.router app.outbounds conn session
        sniffed laws fits.networks fits.final_known fits.rules_known found

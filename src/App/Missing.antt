-- ===== src/App/Missing.antt =====
-- A route to an outbound that the configuration does not have.
use cppsong.Base.{
  ◌≡◌, refl, ap, subst, ◌∙◌, Bool, true, false, Bool-cases, inl, inr, List, [], ◌∷◌, ◌++◌, Bytes,
  none, bytes_eq, bytes_eq_iff, ◌⊎◌,
}
use cppsong.Base.Ends.{Ends-ok}
use cppsong.Base.Lists.{All}
use cppsong.Base.Outcome.{>>=-ok, Outcome, ok}
use cppsong.App.{
  Outbounds, null_called, set_outbound, add_outbounds, sniffed_address, handle_session,
}
use cppsong.App.Dispatch.{handle_session-null_called}
use cppsong.App.Start.{Started, start_config, start_config-parts}
use cppsong.Builder.{BuilderApi}
use cppsong.Builder.Bounds.{configured_router-NetworksFit}
use cppsong.Builder.Dns.{ServerSpec}
use cppsong.Builder.Outbound.{Outbound, build_outbound}
use cppsong.Builder.Rules.{configured_router}
use cppsong.Config.Types.{AppConfig, OutboundConfig}
use cppsong.Dns.Center.{DnsServer}
use cppsong.Inbound.{Session}
use cppsong.Ip.{IpApi, IpLaws, Address}
use cppsong.Json.{JsonApi}
use cppsong.Router.{RouteRule, Router, router_match}
use cppsong.Router.Any.{Some}
use cppsong.Router.Choice.{
  Chosen, chosen_final, chosen_here, chosen_later, NetworksFit, router_match-Chosen,
}
use cppsong.Sniff.{sniff_domain}

module _ {Regex Ip : Type 0} (regex_match : Regex → Bytes → Bool) (api : IpApi Ip) where
  -- The rules prescribe one outbound.
  Chosen-unique :
      (address : Address Ip) (final : Bytes) (rules : List (RouteRule Regex Ip)) (o o' : Bytes)
      → Chosen regex_match api address final rules o
      → Chosen regex_match api address final rules o'
      → o ≡ o'
  Chosen-unique address final rules o o' chosen_final chosen_final = refl
  Chosen-unique address final rules o o' (chosen_here r rs h) (chosen_here r' rs' h') = refl
  Chosen-unique address final rules o o' (chosen_here r rs h)
        (chosen_later r' rs' p none_here rest) =
      absurd (none_here h)
  Chosen-unique address final rules o o' (chosen_later r rs p none_here rest)
        (chosen_here r' rs' h) =
      absurd (none_here h)
  Chosen-unique address final rules o o' (chosen_later r rs p none_here rest)
        (chosen_later r' rs' p' none_here' rest') =
      Chosen-unique address final rs o o' rest rest'

  -- What the rules prescribe is what `Router::match` gives.
  router_match-of :
      (router : Router Regex Ip) (address : Address Ip) (o : Bytes)
      → IpLaws api
      → NetworksFit regex_match api router.rules
      → Chosen regex_match api address router.final router.rules o
      → router_match regex_match api router address ≡ ok o
  router_match-of router address o laws fits chosen =
      let (o', matched, chosen') = router_match-Chosen regex_match api laws router address fits in
      matched ∙ ap ok (Chosen-unique address router.final router.rules o' o chosen' chosen)

module _ {O Config : Type 0} (tag : Config → Bytes) (build : Config → Outcome O) (t : Bytes) where
  set_outbound-IsUnknown :
      (key : Bytes) (o : O) (outbounds : Outbounds O)
      → bytes_eq key t ≡ false
      → All (λ entry. bytes_eq entry.0 t ≡ false) outbounds
      → All (λ entry. bytes_eq entry.0 t ≡ false) (set_outbound key o outbounds)
  unfolding set_outbound
  set_outbound-IsUnknown key o [] other unknown = (other, tt)
  set_outbound-IsUnknown key o (entry ∷ entries) other unknown =
      elim (Bool-cases (bytes_eq entry.0 key)) [
        | inl same ↦ rw same (other, unknown.1)
        | inr apart ↦ rw apart (unknown.0, set_outbound-IsUnknown key o entries other unknown.1)
      ]

  -- A tag that no item has is not in the map that the items fill.
  add_outbounds-IsUnknown :
      (items : List Config) (outbounds outbounds' : Outbounds O)
      → (Some (λ item. tag item ≡ t) items → ⊥)
      → All (λ entry. bytes_eq entry.0 t ≡ false) outbounds
      → add_outbounds tag build items outbounds ≡ ok outbounds'
      → All (λ entry. bytes_eq entry.0 t ≡ false) outbounds'
  unfolding add_outbounds
  add_outbounds-IsUnknown [] outbounds outbounds' missing unknown done =
      let same : outbounds ≡ outbounds' = cc in
      subst (All (λ entry. bytes_eq entry.0 t ≡ false)) same unknown
  add_outbounds-IsUnknown (item ∷ items) outbounds outbounds' missing unknown done =
      let (o, built, rest) = >>=-ok (build item) _ done in
      add_outbounds-IsUnknown items (set_outbound (tag item) o outbounds) outbounds'
        (λ found. missing (inr found))
        (set_outbound-IsUnknown (tag item) o outbounds (apart (Bool-cases (bytes_eq (tag item) t)))
          unknown)
        rest
    where
      apart :
          (bytes_eq (tag item) t ≡ true) ⊎ (bytes_eq (tag item) t ≡ false)
          → bytes_eq (tag item) t ≡ false
      apart (inl same) = absurd (missing (inl ((bytes_eq_iff (tag item) t).0 same)))
      apart (inr other) = other

module _ {Regex Ip Value Object : Type 0} (builder : BuilderApi Regex Ip Value) (api : IpApi Ip)
    (json : JsonApi Value Object) (serve : ServerSpec Ip → DnsServer) where
  -- In an app that was started from any configuration, when the rules choose for the address of a
  -- session, which is the sniffed domain unless that is empty, an outbound that is not
  -- configured, a null pointer is called, and it stays in the map of outbounds, under the tag.
  pub start_config-null_called :
      {C R : Type 0} (regex_match : Regex → Bytes → Bool)
      (connect : Outbound Ip → Session Ip → Outcome R) (relay : C → R → Outcome (Unit {0}))
      → (config : AppConfig) (app : Started Regex Ip) (conn : C) (session : Session Ip)
        (sniffed tag : Bytes)
      → IpLaws api
      → start_config builder api json serve config ≡ ok app
      → sniff_domain session.first_data ≡ ok sniffed
      → Chosen regex_match api
          (sniffed_address sniffed session.address)
          app.router.final
          app.router.rules
          tag
      → (Some (λ item. item.tag ≡ tag) config.outbounds → ⊥)
      → handle_session regex_match api connect relay app.router app.outbounds conn session
        ≡ (ok null_called, app.outbounds ++ (tag, none) ∷ [])
  unfolding configured_router
  start_config-null_called regex_match connect relay config app conn session sniffed tag laws
        started found chosen missing =
      let (sets, loaded, built, added) =
        start_config-parts builder api json serve config app started in
      let whole : configured_router builder api json config.router ≡ ok app.router =
        rw loaded built in
      let fits =
        Ends-ok (λ r. NetworksFit regex_match api r.rules)
          (configured_router builder api json config.router)
          (configured_router-NetworksFit builder api json regex_match config.router) whole in
      handle_session-null_called regex_match api connect relay app.router app.outbounds conn session
        sniffed tag found
        (router_match-of regex_match api app.router (sniffed_address sniffed session.address) tag
          laws fits chosen)
        (add_outbounds-IsUnknown (λ (item : OutboundConfig). item.tag)
          (build_outbound builder.make_address) tag config.outbounds [] app.outbounds missing tt
          added)

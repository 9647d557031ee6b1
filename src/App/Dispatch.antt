-- ===== src/App/Dispatch.antt =====
-- Which outbound a session goes through: the sniffed domain, the rules and the map of outbounds
-- together.
use cppsong.Base.{
  arith, ◌<◌, ◌≡◌, refl, ap, subst, ◌∙◌, Bool, false, List, [], ◌∷◌, ◌++◌, Bytes, none, some,
  bytes_eq,
}
use cppsong.Base.Lists.{All, length}
use cppsong.Base.Outcome.{Outcome, ok}
use cppsong.App.{
  Outbounds, Fate, null_called, outbound_of, caught, sniffed_address, relay_through, dispatch,
  route_sniffed, handle_session,
}
use cppsong.App.Known.{IsKnown}
use cppsong.Inbound.{Session}
use cppsong.Ip.{IpApi, IpLaws, domain_name, Address}
use cppsong.Router.{RouteRule, Router, router_match}
use cppsong.Router.Choice.{
  Chosen, chosen_final, chosen_here, chosen_later, NetworksFit, router_match-Chosen,
}
use cppsong.Sniff.{sniff_domain}
use cppsong.Sniff.ClientHello.{sniff_domain-encode}
use cppsong.Sniff.Format.{ClientHello, encode, IsWellFormed}

pub sniffed_address-domain :
    {Ip : Type 0} (sniffed : Bytes) (address : Address Ip)
    → 0 < length sniffed
    → sniffed_address sniffed address
      ≡ record { address = domain_name sniffed; port = address.port }
sniffed_address-domain [] address nonempty = absurd (omega (arith, nonempty))
sniffed_address-domain (b ∷ bs) address nonempty = refl

module _ {Regex Ip O C R : Type 0} (regex_match : Regex → Bytes → Bool) (api : IpApi Ip)
    (connect : O → Session Ip → Outcome R) (relay : C → R → Outcome (Unit {0})) where
  -- What the rules choose from the known is known.
  Chosen-IsKnown :
      (outbounds : Outbounds O) (address : Address Ip) (final : Bytes)
      (rules : List (RouteRule Regex Ip)) (tag : Bytes)
      → IsKnown outbounds final
      → All (λ r. IsKnown outbounds r.outbound) rules
      → Chosen regex_match api address final rules tag
      → IsKnown outbounds tag
  Chosen-IsKnown outbounds address final rules tag known all chosen_final = known
  Chosen-IsKnown outbounds address final rules tag known all (chosen_here r rs some_rule) = all.0
  Chosen-IsKnown outbounds address final rules tag known all (chosen_later r rs o none_here rest) =
      Chosen-IsKnown outbounds address final rs o known all.1 rest

  -- The session goes through the outbound that the rules choose for its address.
  abbrev pub Dispatched :
      Router Regex Ip → Outbounds O → C → Session Ip → Outcome Fate × Outbounds O → Type 0
  Dispatched router outbounds conn session result =
      (tag : Bytes) × (known : IsKnown outbounds tag) × Chosen regex_match api session.address
        router.final router.rules tag
      × (result ≡ (
        caught (relay_through regex_match api connect relay (some known.outbound) conn session),
        outbounds,
      ))

  -- On laws and rules as the builder gives them, and when the final outbound and those of the rules
  -- are known, a session goes through the outbound that the rules choose for its address, which is
  -- the sniffed domain unless that is empty; an exception on the way is logged, no null pointer is
  -- called, and the map stays as it is.
  pub handle_session-Dispatched :
      (router : Router Regex Ip) (outbounds : Outbounds O) (conn : C) (session : Session Ip)
      (sniffed : Bytes)
      → IpLaws api
      → NetworksFit regex_match api router.rules
      → IsKnown outbounds router.final
      → All (λ r. IsKnown outbounds r.outbound) router.rules
      → sniff_domain session.first_data ≡ ok sniffed
      → Dispatched router outbounds conn
          (record {
            address = sniffed_address sniffed session.address;
            first_data = session.first_data;
          })
          (handle_session regex_match api connect relay router outbounds conn session)
  unfolding handle_session route_sniffed dispatch
  handle_session-Dispatched router outbounds conn session sniffed laws fits final rules found =
      let address = sniffed_address sniffed session.address in
      let (tag, matched, chosen) = router_match-Chosen regex_match api laws router address fits in
      let known =
        Chosen-IsKnown outbounds address router.final router.rules tag final rules chosen in
      (tag, known, chosen, rw (found, matched, dispatch, known.found) refl)

  -- The same with the first bytes of a TLS client: the outbound is chosen for the host name of its
  -- ClientHello, whatever address the client asked the proxy for.
  pub handle_session-hello :
      (router : Router Regex Ip) (outbounds : Outbounds O) (conn : C) (session : Session Ip)
      (h : ClientHello) (rest : Bytes)
      → IpLaws api
      → NetworksFit regex_match api router.rules
      → IsKnown outbounds router.final
      → All (λ r. IsKnown outbounds r.outbound) router.rules
      → IsWellFormed h
      → session.first_data ≡ encode h rest
      → Dispatched router outbounds conn
          (record {
            address = record { address = domain_name h.host; port = session.address.port };
            first_data = session.first_data;
          })
          (handle_session regex_match api connect relay router outbounds conn session)
  handle_session-hello router outbounds conn session h rest laws fits final rules good hello =
      subst
        (λ (a : Address Ip).
          Dispatched router outbounds conn (record { address = a; first_data = session.first_data })
            (handle_session regex_match api connect relay router outbounds conn session))
        (sniffed_address-domain h.host session.address good.some_host)
        (handle_session-Dispatched router outbounds conn session h.host laws fits final rules
          (ap sniff_domain hello ∙ sniff_domain-encode h rest good))

  -- No entry has the tag.
  abbrev pub IsUnknown : Outbounds O → Bytes → Type 0
  IsUnknown outbounds tag = All (λ entry. bytes_eq entry.0 tag ≡ false) outbounds

  outbound_of-IsUnknown :
      (outbounds : Outbounds O) (tag : Bytes)
      → IsUnknown outbounds tag
      → outbound_of tag outbounds ≡ (none, outbounds ++ (tag, none) ∷ [])
  unfolding outbound_of
  outbound_of-IsUnknown [] tag unknown = refl
  outbound_of-IsUnknown (entry ∷ entries) tag unknown =
      rw (unknown.0, outbound_of-IsUnknown entries tag unknown.1) refl

  -- A tag of no outbound, which the rules name: a null pointer is put into the map and called.
  pub handle_session-null_called :
      (router : Router Regex Ip) (outbounds : Outbounds O) (conn : C) (session : Session Ip)
      (sniffed tag : Bytes)
      → sniff_domain session.first_data ≡ ok sniffed
      → router_match regex_match api router (sniffed_address sniffed session.address) ≡ ok tag
      → IsUnknown outbounds tag
      → handle_session regex_match api connect relay router outbounds conn session
        ≡ (ok null_called, outbounds ++ (tag, none) ∷ [])
  unfolding handle_session route_sniffed dispatch relay_through
  handle_session-null_called router outbounds conn session sniffed tag found matched unknown =
      rw (found, matched, dispatch, outbound_of-IsUnknown outbounds tag unknown) refl

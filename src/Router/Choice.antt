-- ===== src/Router/Choice.antt =====
-- `Router::match`: the first route rule with a matching rule, or the final outbound.
use cppsong.Base.{
  ◌↔◌, ◌≡◌, refl, ap, Bool, true, false, List, [], ◌∷◌, Bytes, inl, inr, ◌⊎◌, ◌∙◌, Bool-cases,
}
use cppsong.Base.Lists.{map-All, All}
use cppsong.Base.Outcome.{ok}
use cppsong.Ip.{IpApi, IpLaws, Host, domain_name, ip_address, Address}
use cppsong.Router.{
  IpNetwork, Rule, RouteRule, Router, any, contains, differ, rule_match_host, rule_match,
  match_rules, router_match,
}
use cppsong.Router.Any.{Some, Decides, any-Decides}
use cppsong.Router.Domain.{MatchesDomain, match_domain-Decides}
use cppsong.Router.Network.{PrefixFits, contains-same_family}

-- Two flags differ, or are the same.
differ_iff : (a b : Bool) → (differ a b ≡ false) ↔ (a ≡ b)
differ_iff true true = (λ _. refl, λ _. refl)
differ_iff true false = (λ h. cc h, λ h. cc h)
differ_iff false true = (λ h. cc h, λ h. cc h)
differ_iff false false = (λ _. refl, λ _. refl)

module _ {Regex Ip : Type 0} (regex_match : Regex → Bytes → Bool) (api : IpApi Ip) where
  -- What a rule says of a host. Of an IP address this is what the code makes of its networks, not
  -- what they mean: `contains` compares the network with itself, so that the family decides.
  abbrev pub MatchesHost : Rule Regex Ip → Host Ip → Type 0
  MatchesHost rule (domain_name value) = MatchesDomain regex_match rule.domain_rule value
  MatchesHost rule (ip_address value) = Some (λ n. api.is_v4 n.network ≡ api.is_v4 value) rule.cidr

  -- The outbound that the rules prescribe: the first route rule of which some rule says yes.
  pub data Chosen (address : Address Ip) (final : Bytes)
      : List (RouteRule Regex Ip) → Bytes → Type 0 where
    chosen_final : Chosen address final [] final
    chosen_here :
        (r : RouteRule Regex Ip) (rs : List (RouteRule Regex Ip))
        → Some (λ i. MatchesHost i address.address) r.rules
        → Chosen address final (r ∷ rs) r.outbound
    chosen_later :
        (r : RouteRule Regex Ip) (rs : List (RouteRule Regex Ip)) (o : Bytes)
        → (Some (λ i. MatchesHost i address.address) r.rules → ⊥)
        → Chosen address final rs o
        → Chosen address final (r ∷ rs) o

  abbrev pub NetworksFit : List (RouteRule Regex Ip) → Type 0
  NetworksFit = All (λ r. All (λ i. All (PrefixFits api) i.cidr) r.rules)

  cidr-Decides :
      (laws : IpLaws api) (addr : Ip) (ns : List (IpNetwork Ip))
      → All (PrefixFits api) ns
      → Decides
          (any (λ n. contains api n addr) ns)
          (Some (λ n. api.is_v4 n.network ≡ api.is_v4 addr) ns)
  cidr-Decides laws addr ns fits = any-Decides _ _ ns (
      map-All ns
        (λ n fit. decide n fit (Bool-cases (differ (api.is_v4 n.network) (api.is_v4 addr)))) fits)
    where
      decide :
          (n : IpNetwork Ip)
          → PrefixFits api n
          → (differ (api.is_v4 n.network) (api.is_v4 addr) ≡ true)
            ⊎ (differ (api.is_v4 n.network) (api.is_v4 addr) ≡ false)
          → Decides (contains api n addr) (api.is_v4 n.network ≡ api.is_v4 addr)
      decide n fit (inl other) = (
        false,
        (contains-same_family api n addr laws fit ∙ ap ok (rw other)),
        (λ t. cc t, λ same. cc (other, (differ_iff (api.is_v4 n.network) (api.is_v4 addr)).1 same)),
      )
      decide n fit (inr same) = (
        true,
        (contains-same_family api n addr laws fit ∙ ap ok (rw same)),
        (λ _. (differ_iff (api.is_v4 n.network) (api.is_v4 addr)).0 same, λ _. refl),
      )

  rule-Decides :
      IpLaws api
      → (rule : Rule Regex Ip) (host : Host Ip) → All (PrefixFits api) rule.cidr
      → Decides (rule_match_host regex_match api rule host) (MatchesHost rule host)
  unfolding rule_match_host
  rule-Decides laws rule (domain_name value) fits =
      match_domain-Decides regex_match rule.domain_rule value
  rule-Decides laws rule (ip_address value) fits = cidr-Decides laws value rule.cidr fits

  match_rules-Chosen :
      (laws : IpLaws api) (rs : List (RouteRule Regex Ip)) (final : Bytes) (address : Address Ip)
      → NetworksFit rs
      → (o : Bytes) × (match_rules regex_match api rs final address ≡ ok o)
        × Chosen address final rs o
  unfolding match_rules
  match_rules-Chosen laws [] final address fits = (final, refl, chosen_final)
  match_rules-Chosen laws (r ∷ rs) final address fits =
      step
        (any-Decides _ _ r.rules
          (map-All r.rules (λ i fit. rule-Decides laws i address.address fit) fits.0))
        (match_rules-Chosen laws rs final address fits.1)
    where
      step :
          Decides
            (any (λ i. rule_match regex_match api i address) r.rules)
            (Some (λ i. MatchesHost i address.address) r.rules)
          → (o : Bytes) × (match_rules regex_match api rs final address ≡ ok o)
            × Chosen address final rs o
          → (o : Bytes) × (match_rules regex_match api (r ∷ rs) final address ≡ ok o)
            × Chosen address final (r ∷ rs) o
      step (true, e, iff) (o, e', rest) = (r.outbound, rw e, chosen_here r rs (iff.0 refl))
      step (false, e, iff) (o, e', rest) =
          (o, rw (e, e'), chosen_later r rs o (λ some. cc (iff.1 some)) rest)

  -- When the prefix of every network fits its family, `Router::match` always returns, with the
  -- outbound of the first route rule of which some rule matches the address, or with the final
  -- outbound when there is none. A domain matches a rule that lists it, has a suffix that it is
  -- or is below, a keyword in it, or an expression that matches it; an IP address matches every
  -- rule that names some network of its family, whatever its network is, since the code compares
  -- the network with itself.
  pub router_match-Chosen :
      IpLaws api
      → (router : Router Regex Ip) (address : Address Ip) → NetworksFit router.rules
      → (o : Bytes) × (router_match regex_match api router address ≡ ok o)
        × Chosen address router.final router.rules o
  unfolding router_match
  router_match-Chosen laws router address fits =
      match_rules-Chosen laws router.rules router.final address fits

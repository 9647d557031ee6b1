-- ===== src/Dns/Center/Choice.antt =====
-- `DnsCenter::relay` asks the server that the rules name.
use cppsong.Base.{◌≡◌, refl, Bool, true, false, List, [], ◌∷◌, Bytes}
use cppsong.Base.Outcome.{ok, ◌>>=◌}
use cppsong.Dns.Center.{DnsRule, DnsCenter, find_server, ask, match_server, relay}
use cppsong.Dns.Message.{parse_dns_query, parse_dns_response}
use cppsong.Router.{match_domain}
use cppsong.Router.Any.{Decides}
use cppsong.Router.Domain.{MatchesDomain, match_domain-Decides}

module _ {Regex : Type 0} (regex_match : Regex → Bytes → Bool) where
  -- The server of the first rule that means the domain, or the final one.
  pub data ChosenServer (domain final : Bytes) : List (DnsRule Regex) → Bytes → Type 0 where
    server_final : ChosenServer domain final [] final
    server_here :
        (r : DnsRule Regex) (rs : List (DnsRule Regex))
        → MatchesDomain regex_match r.rule domain
        → ChosenServer domain final (r ∷ rs) r.server
    server_later :
        (r : DnsRule Regex) (rs : List (DnsRule Regex)) (tag : Bytes)
        → (MatchesDomain regex_match r.rule domain → ⊥)
        → ChosenServer domain final rs tag
        → ChosenServer domain final (r ∷ rs) tag

  pub match_server-Chosen :
      (rs : List (DnsRule Regex)) (final domain : Bytes)
      → (tag : Bytes) × (match_server regex_match rs final domain ≡ ok tag)
        × ChosenServer domain final rs tag
  unfolding match_server
  match_server-Chosen [] final domain = (final, refl, server_final)
  match_server-Chosen (r ∷ rs) final domain =
      step (match_domain-Decides regex_match r.rule domain) (match_server-Chosen rs final domain)
    where
      step :
          Decides (match_domain regex_match r.rule domain) (MatchesDomain regex_match r.rule domain)
          → (tag : Bytes) × (match_server regex_match rs final domain ≡ ok tag)
            × ChosenServer domain final rs tag
          → (tag : Bytes) × (match_server regex_match (r ∷ rs) final domain ≡ ok tag)
            × ChosenServer domain final (r ∷ rs) tag
      step (true, e, iff) (tag, e', rest) = (r.server, rw e, server_here r rs (iff.0 refl))
      step (false, e, iff) (tag, e', rest) =
          (tag, rw (e, e'), server_later r rs tag (λ some. cc (iff.1 some)) rest)

module _ {Regex Ip : Type 0} (regex_match : Regex → Bytes → Bool) (of_v4 of_v6 : Bytes → Ip) where
  -- A packet whose name can be read is relayed to the server of the first rule that means the name,
  -- or to the final one; there is an exception when no server has that tag; and the reply is handed
  -- on as it is, once its addresses can be read.
  pub relay-ChosenServer :
      (center : DnsCenter Regex Ip) (packet domain : Bytes)
      → parse_dns_query packet ≡ ok domain
      → (tag : Bytes) × ChosenServer regex_match domain center.final center.rules tag
        × (relay regex_match of_v4 of_v6 center packet ≡ (do
          reply ← ask (find_server tag center.servers) packet
          ips ← parse_dns_response of_v4 of_v6 reply
          ok reply))
  unfolding relay
  relay-ChosenServer center packet domain h =
      let (tag, e, chosen) = match_server-Chosen regex_match center.rules center.final domain in
      (tag, chosen, rw (h, e))

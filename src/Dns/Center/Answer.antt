-- ===== src/Dns/Center/Answer.antt =====
-- What a packet is answered with, without the code of the relay.
use cppsong.Base.{
  ◌≡◌, refl, subst, ◌∙◌, ◌↔◌, Bool, true, false, List, ◌∷◌, Bytes, Option, none, some,
}
use cppsong.Base.Outcome.{ok, >>=-ok}
use cppsong.Dns.Center.{DnsRule, DnsServer, DnsCenter, find_server, ask, match_server, relay}
use cppsong.Dns.Center.Choice.{
  ChosenServer, server_final, server_here, server_later, match_server-Chosen,
}
use cppsong.Dns.Message.{parse_dns_query, parse_dns_response}
use cppsong.Router.{match_domain}
use cppsong.Router.Any.{Decides}
use cppsong.Router.Domain.{MatchesDomain, match_domain-Decides}

module _ {Regex : Type 0} (regex_match : Regex → Bytes → Bool) where
  match_server_unique :
      (final domain tag : Bytes) (rules : List (DnsRule Regex))
      → ChosenServer regex_match domain final rules tag
      → match_server regex_match rules final domain ≡ ok tag
  unfolding match_server
  match_server_unique final domain tag rules server_final = refl
  match_server_unique final domain tag rules (server_here r rs means) =
      let (found, e, iff) = match_domain-Decides regex_match r.rule domain in
      rw (e, iff.1 means) refl
  match_server_unique final domain tag rules (server_later r rs tag' other chosen) =
      by_rule (match_domain-Decides regex_match r.rule domain)
        (match_server_unique final domain tag rs chosen)
    where
      by_rule :
          Decides (match_domain regex_match r.rule domain) (MatchesDomain regex_match r.rule domain)
          → match_server regex_match rs final domain ≡ ok tag
          → match_server regex_match (r ∷ rs) final domain ≡ ok tag
      by_rule (true, e, iff) rest = absurd (other (iff.0 refl))
      by_rule (false, e, iff) rest = rw e rest

ask-ok :
    (found : Option DnsServer) (packet reply : Bytes)
    → ask found packet ≡ ok reply
    → (server : DnsServer) × (found ≡ some server) × (server packet ≡ ok reply)
unfolding ask
ask-ok none packet reply e = absurd (cc)
ask-ok (some server) packet reply e = (server, refl, e)

module _ {Regex Ip : Type 0} (regex_match : Regex → Bytes → Bool) (of_v4 of_v6 : Bytes → Ip) where
  -- The packet asks for a name, the rules choose a server that there is, and its reply can be read.
  pub record Answers (center : DnsCenter Regex Ip) (packet reply : Bytes) : Type 0 where
    pub domain : Bytes
    pub tag : Bytes
    pub server : DnsServer
    pub ips : List Ip
    pub asks : parse_dns_query packet ≡ ok domain
    pub chosen : ChosenServer regex_match domain center.final center.rules tag
    pub has_server : find_server tag center.servers ≡ some server
    pub replies : server packet ≡ ok reply
    pub readable : parse_dns_response of_v4 of_v6 reply ≡ ok ips

  relay-read :
      (center : DnsCenter Regex Ip) (packet reply : Bytes)
      → relay regex_match of_v4 of_v6 center packet ≡ ok reply
      → Answers center packet reply
  unfolding relay
  relay-read center packet reply e =
      let (domain, asks, e1) = >>=-ok (parse_dns_query packet) _ e in
      let (tag, matched, e2) =
        >>=-ok (match_server regex_match center.rules center.final domain) _ e1 in
      let (reply', asked, e3) = >>=-ok (ask (find_server tag center.servers) packet) _ e2 in
      let (ips, readable, same) = >>=-ok (parse_dns_response of_v4 of_v6 reply') _ e3 in
      let (server, has_server, replies) =
        ask-ok (find_server tag center.servers) packet reply' asked in
      let (tag', matched', chosen) =
        match_server-Chosen regex_match center.rules center.final domain in
      record {
        domain = domain;
        tag = tag;
        server = server;
        ips = ips;
        asks = asks;
        chosen = subst (ChosenServer regex_match domain center.final center.rules) (cc) chosen;
        has_server = has_server;
        replies = replies ∙ same;
        readable = subst (λ r. parse_dns_response of_v4 of_v6 r ≡ ok ips) (cc) readable;
      }

  -- A packet is relayed with a reply exactly when it asks for a name, the first rule that means the
  -- name, or else the final one, names a server that there is, this server gives the reply to the
  -- packet, and the addresses of the reply can be read.
  pub relay-Answers :
      (center : DnsCenter Regex Ip) (packet reply : Bytes)
      → relay regex_match of_v4 of_v6 center packet ≡ ok reply ↔ Answers center packet reply
  unfolding relay ask
  relay-Answers center packet reply = (
    relay-read center packet reply,
    λ a.
        rw
          (
            a.asks,
            match_server_unique regex_match center.final a.domain a.tag center.rules a.chosen,
            a.has_server,
            a.replies,
            a.readable,
          )
          refl,
  )

-- ===== src/Dns/Center.antt =====
-- src/dns/dns.cpp: the choice of a server, the relay of a query to it, and resolving a domain with
-- the cache. A server is what its `relay` makes of a query.
pub mod Choice
pub mod Answer
pub mod Serving
pub mod Cached
mod Examples
use cppsong.Base.{
  ℕ, Bool, true, false, List, [], ◌∷◌, Bytes, Option, none, some, map, bytes_eq, if◌then◌else◌,
}
use cppsong.Base.Outcome.{Outcome, ok, throw, bad_index, bad_address, hang, ◌>>=◌, no_dns_server}
use cppsong.Dns.Cache.{Entries, lookup, store}
use cppsong.Dns.Message.{build_dns_query, parse_dns_query, parse_dns_response}
use cppsong.Router.{DomainRule, match_domain}

pub record DnsRule (Regex : Type 0) : Type 0 where
  pub rule : DomainRule Regex
  pub server : Bytes

abbrev pub DnsServer : Type 0
DnsServer = Bytes → Outcome Bytes

pub record DnsCenter (Regex Ip : Type 0) : Type 0 where
  pub rules : List (DnsRule Regex)
  pub servers : List (Bytes × DnsServer)
  pub final : Bytes
  pub cache : Entries Ip

-- `servers_.find(serverTag)`
pub find_server : Bytes → List (Bytes × DnsServer) → Option DnsServer
find_server tag [] = none
find_server tag ((key, server) ∷ rest) =
    let next = find_server tag rest in if bytes_eq key tag then some server else next

-- `it->second->relay(data)`
pub ask : Option DnsServer → Bytes → Outcome Bytes
ask none packet = throw no_dns_server
ask (some server) packet = server packet

module _ {Regex : Type 0} (regex_match : Regex → Bytes → Bool) where
  -- The loop of `match_`.
  pub match_server : List (DnsRule Regex) → Bytes → Bytes → Outcome Bytes
  match_server [] final domain = ok final
  match_server (item ∷ items) final domain = do
    found ← match_domain regex_match item.rule domain
    let next = match_server items final domain
    if found then ok item.server else next

module _ {Ip : Type 0} where
  -- `store` behind the query, on the cache as it is then; an exception goes past it.
  pub keep : ℕ → Bytes → Entries Ip → Outcome (List Ip) → Entries Ip × Outcome (List Ip)
  keep now domain entries (ok ips) = (store now domain ips entries, ok ips)
  keep now domain entries result = (entries, result)

-- `resolve` without an instance: the endpoints that the resolver of Boost.Asio gives, without their
-- ports.
abbrev pub system_resolve :
    {Ip : Type 0} → (Bytes → Outcome (List (Ip × ℕ))) → Bytes → Outcome (List Ip)
system_resolve async_resolve domain = do
  results ← async_resolve domain
  ok (map (λ endpoint. endpoint.0) results)

module _ {Regex Ip : Type 0} (regex_match : Regex → Bytes → Bool) (of_v4 of_v6 : Bytes → Ip) where
  -- The addresses of the reply are read for the log.
  unfoldable pub relay : DnsCenter Regex Ip → Bytes → Outcome Bytes
  unfolding match_server
  relay center packet = do
    domain ← parse_dns_query packet
    server_tag ← match_server regex_match center.rules center.final domain
    reply ← ask (find_server server_tag center.servers) packet
    ips ← parse_dns_response of_v4 of_v6 reply
    ok reply

  -- What `resolve` does without a hit.
  pub query : ℕ → DnsCenter Regex Ip → Bytes → Outcome (List Ip)
  unfolding relay
  query random_id center domain = do
    packet ← build_dns_query random_id domain false
    reply ← relay center packet
    parse_dns_response of_v4 of_v6 reply

  -- The hit, or the query.
  pub resolve_found :
      ℕ
      → ℕ
      → (Entries Ip → Entries Ip)
      → DnsCenter Regex Ip
      → Bytes
      → Entries Ip
      → List Ip
      → Entries Ip × Outcome (List Ip)
  unfolding keep query
  resolve_found random_id later meanwhile center domain entries [] =
      keep later domain (meanwhile entries) (query random_id center domain)
  resolve_found random_id later meanwhile center domain entries (ip ∷ ips) =
      (entries, ok (ip ∷ ips))

  -- `resolve` of an instance, called at `now` and resumed at `later`. While it waits for the server,
  -- other tasks change the cache by `meanwhile`.
  unfoldable pub resolve :
      ℕ
      → ℕ
      → ℕ
      → (Entries Ip → Entries Ip)
      → DnsCenter Regex Ip
      → Bytes
      → Entries Ip × Outcome (List Ip)
  unfolding resolve_found
  resolve random_id now later meanwhile center domain =
      resolve_found random_id later meanwhile center domain (lookup now domain center.cache).0
        (lookup now domain center.cache).1

-- ===== src/Builder/Dns.antt =====
-- `buildDnsCenter`: the servers by tag, and the rules of the rule sets before the own rule of an item.
use cppsong.Base.{
  ℕ, List, [], ◌∷◌, ◌++◌, Bytes, Option, none, some, map, Bool, bytes_eq, if◌then◌else◌,
}
use cppsong.Base.Outcome.{Outcome, ok, throw, ◌>>=◌, unsupported_dns_server}
use cppsong.Base.Text.{codes}
use cppsong.Builder.{BuilderApi}
use cppsong.Builder.Rules.{RuleSets, find_rule_set, known_rule_set, build_domain_rule}
use cppsong.Config.Types.{DnsServerConfig, DnsRuleConfig, DnsConfig}
use cppsong.Dns.Center.{DnsRule, DnsServer, DnsCenter}
use cppsong.Ip.{IpApi}
use cppsong.Json.{JsonApi}
use cppsong.Router.{Rule}
use cppsong.Router.Cidr.{valid_address}

-- `UdpDnsServer` and `HttpsDnsServer`, as they are constructed.
pub data ServerSpec (Ip : Type 0) : Type 0 where
  udp_server : Ip → ℕ → ServerSpec Ip
  https_server : Ip → ℕ → Bytes → Bytes → Bytes → Bool → ServerSpec Ip

-- `servers.emplace(tag, server)` keeps an entry that is there.
unfoldable pub emplace : {S : Type 0} → Bytes → S → List (Bytes × S) → List (Bytes × S)
emplace tag server [] = (tag, server) ∷ []
emplace tag server ((key, old) ∷ rest) =
    let next = emplace tag server rest in
    if bytes_eq key tag then (key, old) ∷ rest else (key, old) ∷ next

-- `serve` is what a server that is constructed does with a query.
module _ {Regex Ip Value Object : Type 0} (builder : BuilderApi Regex Ip Value) (api : IpApi Ip)
    (json : JsonApi Value Object) (serve : ServerSpec Ip → DnsServer) where
  unfoldable pub build_dns_server : DnsServerConfig → Outcome (ServerSpec Ip)
  build_dns_server config =
      if bytes_eq config.type (codes "udp")
      then (do
        ip ← valid_address (builder.make_address config.server)
        ok (udp_server ip config.server_port))
      else if bytes_eq config.type (codes "https")
      then (do
        ip ← valid_address (builder.make_address config.server)
        ok (
            https_server ip config.server_port config.host config.path config.tls.server_name
              config.tls.insecure))
      else throw unsupported_dns_server

  unfoldable pub build_servers :
      List (Bytes × DnsServer) → List DnsServerConfig → Outcome (List (Bytes × DnsServer))
  build_servers servers [] = ok servers
  build_servers servers (item ∷ items) = do
    spec ← build_dns_server item
    build_servers (emplace item.tag (serve spec) servers) items

  -- `rules.emplace_back(v.domainRule, item.server)`
  unfoldable pub rules_of_set : Bytes → List (Rule Regex Ip) → List (DnsRule Regex)
  rules_of_set server rules = map (λ v. record { rule = v.domain_rule; server = server }) rules

  unfoldable pub rules_of_sets :
      RuleSets Regex Ip → Bytes → List (DnsRule Regex) → List Bytes → Outcome (List (DnsRule Regex))
  rules_of_sets rule_sets server rules [] = ok rules
  rules_of_sets rule_sets server rules (name ∷ names) = do
    found ← known_rule_set (find_rule_set name rule_sets)
    rules_of_sets rule_sets server (rules ++ rules_of_set server found) names

  unfoldable pub build_dns_rules :
      RuleSets Regex Ip → List (DnsRule Regex) → List DnsRuleConfig → Outcome (List (DnsRule Regex))
  build_dns_rules rule_sets rules [] = ok rules
  build_dns_rules rule_sets rules (item ∷ items) = do
    with_sets ← rules_of_sets rule_sets item.server rules item.rule_set
    own ← build_domain_rule builder api json item.rule
    build_dns_rules rule_sets (with_sets ++ record { rule = own; server = item.server } ∷ []) items

  -- The address to listen at, if the configuration has one.
  pub listen_endpoint : DnsConfig → Outcome (Option (Ip × ℕ))
  listen_endpoint config = if bytes_eq config.listen [] then ok none else (do
    ip ← valid_address (builder.make_address config.listen)
    ok (some (ip, config.listen_port)))

  unfoldable pub build_dns_center :
      RuleSets Regex Ip → DnsConfig → Outcome (Option (Ip × ℕ) × DnsCenter Regex Ip)
  unfolding listen_endpoint
  build_dns_center rule_sets config = do
    addr ← listen_endpoint config
    servers ← build_servers [] config.servers
    rules ← build_dns_rules rule_sets [] config.rules
    ok (addr, record { rules = rules; servers = servers; final = config.final; cache = [] })

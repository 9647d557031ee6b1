-- ===== src/Config/Print.antt =====
-- A JSON object for each configuration record, with every member of it.
use cppsong.Base.{List, [], ◌∷◌, Bytes, map}
use cppsong.Base.Text.{codes}
use cppsong.Bytes.{pos}
use cppsong.Json.Writer.{JsonWriter}
use cppsong.Config.Types.{
  TlsClientConfig, DomainRuleConfig, RuleConfig, DnsServerConfig, DnsRuleConfig, DnsConfig,
  TransportConfig, UserPassConfig, InboundConfig, OutboundConfig, RouteRuleConfig, RuleSetConfig,
  RouterConfig, AppConfig,
}

module _ {Value Object : Type 0} (w : JsonWriter Value Object) where
  abbrev pub strings : List Bytes → Value
  strings texts = w.array (map w.string texts)

  abbrev pub objects : {A : Type 0} → (A → Object) → List A → Value
  objects print items = w.array (map (λ a. w.object_value (print a)) items)

  unfoldable pub print_tls_client_config : TlsClientConfig → Object
  print_tls_client_config c = w.object (
      (codes "enabled", w.bool c.enabled)
      ∷ (codes "insecure", w.bool c.insecure)
      ∷ (codes "server_name", w.string c.server_name)
      ∷ [])

  unfoldable pub print_transport_config : TransportConfig → Object
  print_transport_config c = w.object (
      (codes "type", w.string c.type)
      ∷ (codes "path", w.string c.path)
      ∷ (codes "host", w.string c.host)
      ∷ [])

  unfoldable pub print_user_pass_config : UserPassConfig → Object
  print_user_pass_config c =
      w.object
        ((codes "username", w.string c.username) ∷ (codes "password", w.string c.password) ∷ [])

  unfoldable pub print_inbound_config : InboundConfig → Object
  print_inbound_config c = w.object (
      (codes "tag", w.string c.tag)
      ∷ (codes "type", w.string c.type)
      ∷ (codes "listen", w.string c.listen)
      ∷ (codes "listen_port", w.int64 (pos c.listen_port))
      ∷ (codes "users", objects print_user_pass_config c.users)
      ∷ (codes "uuids", strings c.uuids)
      ∷ (codes "tunIpv4", w.string c.tun_ipv4)
      ∷ (codes "tunIpv6", w.string c.tun_ipv6)
      ∷ (codes "tunNextIpv4", w.string c.tun_next_ipv4)
      ∷ (codes "tunNextIpv6", w.string c.tun_next_ipv6)
      ∷ [])

  unfoldable pub print_outbound_config : OutboundConfig → Object
  print_outbound_config c = w.object (
      (codes "tag", w.string c.tag)
      ∷ (codes "type", w.string c.type)
      ∷ (codes "server", w.string c.server)
      ∷ (codes "server_port", w.int64 (pos c.server_port))
      ∷ (codes "user", w.object_value (print_user_pass_config c.user))
      ∷ (codes "uuid", w.string c.uuid)
      ∷ (codes "tls", w.object_value (print_tls_client_config c.tls))
      ∷ (codes "transport", w.object_value (print_transport_config c.transport))
      ∷ [])

  unfoldable pub print_rule_set_config : RuleSetConfig → Object
  print_rule_set_config c = w.object (
      (codes "tag", w.string c.tag)
      ∷ (codes "type", w.string c.type)
      ∷ (codes "path", w.string c.path)
      ∷ (codes "format", w.string c.format)
      ∷ [])

  unfoldable pub print_domain_rule_config : DomainRuleConfig → Object
  print_domain_rule_config c = w.object (
      (codes "domain", strings c.domain)
      ∷ (codes "domain_suffix", strings c.domain_suffix)
      ∷ (codes "domain_keyword", strings c.domain_keyword)
      ∷ (codes "domain_regex", strings c.domain_regex)
      ∷ [])

  unfoldable pub print_rule_config : RuleConfig → Object
  print_rule_config c = w.object (
      (codes "domain", strings c.domain_rule.domain)
      ∷ (codes "domain_suffix", strings c.domain_rule.domain_suffix)
      ∷ (codes "domain_keyword", strings c.domain_rule.domain_keyword)
      ∷ (codes "domain_regex", strings c.domain_rule.domain_regex)
      ∷ (codes "cidr", strings c.cidr)
      ∷ [])

  unfoldable pub print_route_rule_config : RouteRuleConfig → Object
  print_route_rule_config c = w.object (
      (codes "domain", strings c.rule.domain_rule.domain)
      ∷ (codes "domain_suffix", strings c.rule.domain_rule.domain_suffix)
      ∷ (codes "domain_keyword", strings c.rule.domain_rule.domain_keyword)
      ∷ (codes "domain_regex", strings c.rule.domain_rule.domain_regex)
      ∷ (codes "cidr", strings c.rule.cidr)
      ∷ (codes "rule_set", strings c.rule_set)
      ∷ (codes "outbound", w.string c.outbound)
      ∷ [])

  unfoldable pub print_router_config : RouterConfig → Object
  print_router_config c = w.object (
      (codes "rules", objects print_route_rule_config c.rules)
      ∷ (codes "rule_set", objects print_rule_set_config c.rule_sets)
      ∷ (codes "final", w.string c.final)
      ∷ [])

  unfoldable pub print_dns_server_config : DnsServerConfig → Object
  print_dns_server_config c = w.object (
      (codes "tag", w.string c.tag)
      ∷ (codes "type", w.string c.type)
      ∷ (codes "server", w.string c.server)
      ∷ (codes "server_port", w.int64 (pos c.server_port))
      ∷ (codes "host", w.string c.host)
      ∷ (codes "path", w.string c.path)
      ∷ (codes "tls", w.object_value (print_tls_client_config c.tls))
      ∷ [])

  unfoldable pub print_dns_rule_config : DnsRuleConfig → Object
  print_dns_rule_config c = w.object (
      (codes "domain", strings c.rule.domain)
      ∷ (codes "domain_suffix", strings c.rule.domain_suffix)
      ∷ (codes "domain_keyword", strings c.rule.domain_keyword)
      ∷ (codes "domain_regex", strings c.rule.domain_regex)
      ∷ (codes "rule_set", strings c.rule_set)
      ∷ (codes "server", w.string c.server)
      ∷ [])

  unfoldable pub print_dns_config : DnsConfig → Object
  print_dns_config c = w.object (
      (codes "listen", w.string c.listen)
      ∷ (codes "listen_port", w.int64 (pos c.listen_port))
      ∷ (codes "servers", objects print_dns_server_config c.servers)
      ∷ (codes "rules", objects print_dns_rule_config c.rules)
      ∷ (codes "final", w.string c.final)
      ∷ [])

  unfoldable pub print_app_config : AppConfig → Object
  print_app_config c = w.object (
      (codes "inbounds", objects print_inbound_config c.inbounds)
      ∷ (codes "outbounds", objects print_outbound_config c.outbounds)
      ∷ (codes "router", w.object_value (print_router_config c.router))
      ∷ (codes "dns", w.object_value (print_dns_config c.dns))
      ∷ [])

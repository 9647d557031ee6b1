-- ===== src/Config/Parse.antt =====
-- src/config/config.cpp: a JSON object is read into the configuration records, one function for each.
use cppsong.Base.{Bool, true, false, List, [], ◌∷◌, Bytes}
use cppsong.Base.Outcome.{Outcome, ok, ◌>>=◌}
use cppsong.Base.Text.{codes}
use cppsong.Json.{
  JsonApi, as_kind, get_bool, get_string, get_u16, get_string_list, get_obj, get_array,
}
use cppsong.Config.Types.{
  TlsClientConfig, TlsServerConfig, DomainRuleConfig, RuleConfig, DnsServerConfig, DnsRuleConfig,
  DnsConfig, TransportConfig, UserPassConfig, InboundConfig, OutboundConfig, RouteRuleConfig,
  RuleSetConfig, RouterConfig, AppConfig,
}

module _ {Value Object : Type 0} (json : JsonApi Value Object) where
  -- `for (item : array) v.emplace_back(parse(item.as_object()));`
  unfoldable pub each_object : {A : Type 0} → (Object → Outcome A) → List Value → Outcome (List A)
  each_object parse [] = ok []
  each_object parse (item ∷ items) = do
    obj ← as_kind (json.if_object item)
    a ← parse obj
    rest ← each_object parse items
    ok (a ∷ rest)

  unfoldable pub parse_tls_client_config : Object → Outcome TlsClientConfig
  parse_tls_client_config obj = do
    enabled ← get_bool json obj (codes "enabled") false
    insecure ← get_bool json obj (codes "insecure") false
    server_name ← get_string json obj (codes "server_name")
    ok (record { enabled = enabled; insecure = insecure; server_name = server_name })

  -- The bytes that a `std::string` is assigned from a Boolean.
  abbrev pub bool_text : Bool → Bytes
  bool_text true = 1 ∷ []
  bool_text false = 0 ∷ []

  -- `keyPath` is assigned what `getBool` gives. Nothing calls this function.
  unfoldable pub parse_tls_server_config : Object → Outcome TlsServerConfig
  parse_tls_server_config obj = do
    enabled ← get_bool json obj (codes "enabled") false
    key_path ← get_bool json obj (codes "key_path") false
    certificate_path ← get_string json obj (codes "certificate_path")
    ok (record {
      enabled = enabled;
      certificate_path = certificate_path;
      key_path = bool_text key_path;
    })

  unfoldable pub parse_transport_config : Object → Outcome TransportConfig
  parse_transport_config obj = do
    type ← get_string json obj (codes "type")
    path ← get_string json obj (codes "path")
    host ← get_string json obj (codes "host")
    ok (record { type = type; path = path; host = host })

  unfoldable pub parse_user_pass_config : Object → Outcome UserPassConfig
  parse_user_pass_config obj = do
    username ← get_string json obj (codes "username")
    password ← get_string json obj (codes "password")
    ok (record { username = username; password = password })

  -- `v.tls` is never assigned: `unset` is what it holds.
  unfoldable pub parse_inbound_config : TlsServerConfig → Object → Outcome InboundConfig
  parse_inbound_config unset obj = do
    tag ← get_string json obj (codes "tag")
    type ← get_string json obj (codes "type")
    listen ← get_string json obj (codes "listen")
    listen_port ← get_u16 json obj (codes "listen_port")
    users_array ← get_array json obj (codes "users")
    users ← each_object parse_user_pass_config users_array
    uuids ← get_string_list json obj (codes "uuids")
    tun_ipv4 ← get_string json obj (codes "tunIpv4")
    tun_ipv6 ← get_string json obj (codes "tunIpv6")
    tun_next_ipv4 ← get_string json obj (codes "tunNextIpv4")
    tun_next_ipv6 ← get_string json obj (codes "tunNextIpv6")
    ok (record {
      tag = tag;
      type = type;
      listen = listen;
      listen_port = listen_port;
      users = users;
      uuids = uuids;
      tls = unset;
      tun_ipv4 = tun_ipv4;
      tun_ipv6 = tun_ipv6;
      tun_next_ipv4 = tun_next_ipv4;
      tun_next_ipv6 = tun_next_ipv6;
    })

  unfoldable pub parse_outbound_config : Object → Outcome OutboundConfig
  parse_outbound_config obj = do
    tag ← get_string json obj (codes "tag")
    type ← get_string json obj (codes "type")
    server ← get_string json obj (codes "server")
    server_port ← get_u16 json obj (codes "server_port")
    tls_obj ← get_obj json obj (codes "tls")
    tls ← parse_tls_client_config tls_obj
    user_obj ← get_obj json obj (codes "user")
    user ← parse_user_pass_config user_obj
    transport_obj ← get_obj json obj (codes "transport")
    transport ← parse_transport_config transport_obj
    uuid ← get_string json obj (codes "uuid")
    ok (record {
      tag = tag;
      type = type;
      server = server;
      server_port = server_port;
      user = user;
      uuid = uuid;
      tls = tls;
      transport = transport;
    })

  unfoldable pub parse_rule_set_config : Object → Outcome RuleSetConfig
  parse_rule_set_config obj = do
    tag ← get_string json obj (codes "tag")
    format ← get_string json obj (codes "format")
    path ← get_string json obj (codes "path")
    type ← get_string json obj (codes "type")
    ok (record { tag = tag; type = type; path = path; format = format })

  unfoldable pub parse_domain_rule_config : Object → Outcome DomainRuleConfig
  parse_domain_rule_config obj = do
    domain ← get_string_list json obj (codes "domain")
    domain_suffix ← get_string_list json obj (codes "domain_suffix")
    domain_keyword ← get_string_list json obj (codes "domain_keyword")
    domain_regex ← get_string_list json obj (codes "domain_regex")
    ok (record {
      domain = domain;
      domain_suffix = domain_suffix;
      domain_keyword = domain_keyword;
      domain_regex = domain_regex;
    })

  unfoldable pub parse_rule_config : Object → Outcome RuleConfig
  parse_rule_config obj = do
    domain_rule ← parse_domain_rule_config obj
    cidr ← get_string_list json obj (codes "cidr")
    ok (record { domain_rule = domain_rule; cidr = cidr })

  unfoldable pub parse_route_rule_config : Object → Outcome RouteRuleConfig
  parse_route_rule_config obj = do
    rule ← parse_rule_config obj
    rule_set ← get_string_list json obj (codes "rule_set")
    outbound ← get_string json obj (codes "outbound")
    ok (record { rule = rule; rule_set = rule_set; outbound = outbound })

  unfoldable pub parse_router_config : Object → Outcome RouterConfig
  parse_router_config obj = do
    final ← get_string json obj (codes "final")
    rules_array ← get_array json obj (codes "rules")
    rules ← each_object parse_route_rule_config rules_array
    rule_sets_array ← get_array json obj (codes "rule_set")
    rule_sets ← each_object parse_rule_set_config rule_sets_array
    ok (record { rules = rules; rule_sets = rule_sets; final = final })

  unfoldable pub parse_dns_server_config : Object → Outcome DnsServerConfig
  parse_dns_server_config obj = do
    server ← get_string json obj (codes "server")
    server_port ← get_u16 json obj (codes "server_port")
    tag ← get_string json obj (codes "tag")
    type ← get_string json obj (codes "type")
    host ← get_string json obj (codes "host")
    tls_obj ← get_obj json obj (codes "tls")
    tls ← parse_tls_client_config tls_obj
    path ← get_string json obj (codes "path")
    ok (record {
      tag = tag;
      type = type;
      server = server;
      server_port = server_port;
      host = host;
      path = path;
      tls = tls;
    })

  unfoldable pub parse_dns_rule_config : Object → Outcome DnsRuleConfig
  parse_dns_rule_config obj = do
    rule ← parse_domain_rule_config obj
    rule_set ← get_string_list json obj (codes "rule_set")
    server ← get_string json obj (codes "server")
    ok (record { rule = rule; rule_set = rule_set; server = server })

  unfoldable pub parse_dns_config : Object → Outcome DnsConfig
  parse_dns_config obj = do
    servers_array ← get_array json obj (codes "servers")
    servers ← each_object parse_dns_server_config servers_array
    rules_array ← get_array json obj (codes "rules")
    rules ← each_object parse_dns_rule_config rules_array
    listen ← get_string json obj (codes "listen")
    listen_port ← get_u16 json obj (codes "listen_port")
    final ← get_string json obj (codes "final")
    ok (record {
      listen = listen;
      listen_port = listen_port;
      servers = servers;
      rules = rules;
      final = final;
    })

  unfoldable pub pares_app_config : TlsServerConfig → Object → Outcome AppConfig
  pares_app_config unset obj = do
    inbounds_array ← get_array json obj (codes "inbounds")
    inbounds ← each_object (parse_inbound_config unset) inbounds_array
    outbounds_array ← get_array json obj (codes "outbounds")
    outbounds ← each_object parse_outbound_config outbounds_array
    router_obj ← get_obj json obj (codes "router")
    router ← parse_router_config router_obj
    dns_obj ← get_obj json obj (codes "dns")
    dns ← parse_dns_config dns_obj
    ok (record { inbounds = inbounds; outbounds = outbounds; router = router; dns = dns })

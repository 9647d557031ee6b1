-- ===== src/Config/Records.antt =====
-- Each configuration record, read back from its JSON form.
use cppsong.Base.{◌^◌, ◌<◌, ◌≡◌, refl, List, Bytes, some, bytes_eq}
use cppsong.Base.Outcome.{ok}
use cppsong.Base.Text.{codes}
use cppsong.Json.{JsonApi}
use cppsong.Config.Types.{
  TlsClientConfig, DomainRuleConfig, RuleConfig, DnsServerConfig, DnsRuleConfig, TransportConfig,
  UserPassConfig, OutboundConfig, RouteRuleConfig, RuleSetConfig,
}
use cppsong.Config.Parse.{
  parse_tls_client_config, parse_domain_rule_config, parse_rule_config, parse_dns_server_config,
  parse_dns_rule_config, parse_transport_config, parse_user_pass_config, parse_outbound_config,
  parse_route_rule_config, parse_rule_set_config,
}
use cppsong.Config.Print.{
  strings, print_tls_client_config, print_dns_server_config, print_dns_rule_config,
  print_transport_config, print_user_pass_config, print_outbound_config, print_route_rule_config,
  print_rule_set_config,
}
use cppsong.Json.Writer.{JsonWriter, find_member, JsonLaws}
use cppsong.Config.Steps.{ok_step, string_step, bool_step, object_step, port_step, list_step}

pub tls_client-print :
    {Value Object : Type 0} (json : JsonApi Value Object) (w : JsonWriter Value Object)
    (laws : JsonLaws json w)
    → (c : TlsClientConfig) → parse_tls_client_config json (print_tls_client_config w c) ≡ ok c
unfolding parse_tls_client_config print_tls_client_config find_member bytes_eq
tls_client-print json w laws c =
    bool_step json w laws _ _ _ _ _ refl
      (bool_step json w laws _ _ _ _ _ refl (string_step json w laws _ _ _ _ refl refl))

pub transport-print :
    {Value Object : Type 0} (json : JsonApi Value Object) (w : JsonWriter Value Object)
    (laws : JsonLaws json w)
    → (c : TransportConfig) → parse_transport_config json (print_transport_config w c) ≡ ok c
unfolding parse_transport_config print_transport_config find_member bytes_eq
transport-print json w laws c =
    string_step json w laws _ _ _ _ refl
      (string_step json w laws _ _ _ _ refl (string_step json w laws _ _ _ _ refl refl))

pub user_pass-print :
    {Value Object : Type 0} (json : JsonApi Value Object) (w : JsonWriter Value Object)
    (laws : JsonLaws json w)
    → (c : UserPassConfig) → parse_user_pass_config json (print_user_pass_config w c) ≡ ok c
unfolding parse_user_pass_config print_user_pass_config find_member bytes_eq
user_pass-print json w laws c =
    string_step json w laws _ _ _ _ refl (string_step json w laws _ _ _ _ refl refl)

pub rule_set-print :
    {Value Object : Type 0} (json : JsonApi Value Object) (w : JsonWriter Value Object)
    (laws : JsonLaws json w)
    → (c : RuleSetConfig) → parse_rule_set_config json (print_rule_set_config w c) ≡ ok c
unfolding parse_rule_set_config print_rule_set_config find_member bytes_eq
rule_set-print json w laws c = string_step json w laws _ _ _ _ refl (
    string_step json w laws _ _ _ _ refl
      (string_step json w laws _ _ _ _ refl (string_step json w laws _ _ _ _ refl refl)))

-- A domain rule stands among the members of the object that it is read from.
pub domain_rule-members :
    {Value Object : Type 0} (json : JsonApi Value Object) (w : JsonWriter Value Object)
    (laws : JsonLaws json w)
    → (fields : List (Bytes × Value)) (c : DomainRuleConfig)
    → find_member (codes "domain") fields ≡ some (strings w c.domain)
    → find_member (codes "domain_suffix") fields ≡ some (strings w c.domain_suffix)
    → find_member (codes "domain_keyword") fields ≡ some (strings w c.domain_keyword)
    → find_member (codes "domain_regex") fields ≡ some (strings w c.domain_regex)
    → parse_domain_rule_config json (w.object fields) ≡ ok c
unfolding parse_domain_rule_config
domain_rule-members json w laws fields c d s k r = list_step json w laws _ _ _ _ d (
    list_step json w laws _ _ _ _ s
      (list_step json w laws _ _ _ _ k (list_step json w laws _ _ _ _ r refl)))

pub rule-members :
    {Value Object : Type 0} (json : JsonApi Value Object) (w : JsonWriter Value Object)
    (laws : JsonLaws json w)
    → (fields : List (Bytes × Value)) (c : RuleConfig)
    → find_member (codes "domain") fields ≡ some (strings w c.domain_rule.domain)
    → find_member (codes "domain_suffix") fields ≡ some (strings w c.domain_rule.domain_suffix)
    → find_member (codes "domain_keyword") fields ≡ some (strings w c.domain_rule.domain_keyword)
    → find_member (codes "domain_regex") fields ≡ some (strings w c.domain_rule.domain_regex)
    → find_member (codes "cidr") fields ≡ some (strings w c.cidr)
    → parse_rule_config json (w.object fields) ≡ ok c
unfolding parse_rule_config
rule-members json w laws fields c d s k r n =
    ok_step _ _ _ (domain_rule-members json w laws fields c.domain_rule d s k r)
      (list_step json w laws _ _ _ _ n refl)

pub route_rule-print :
    {Value Object : Type 0} (json : JsonApi Value Object) (w : JsonWriter Value Object)
    (laws : JsonLaws json w)
    → (c : RouteRuleConfig) → parse_route_rule_config json (print_route_rule_config w c) ≡ ok c
unfolding parse_route_rule_config print_route_rule_config find_member bytes_eq
route_rule-print json w laws c =
    ok_step _ _ _ (rule-members json w laws _ c.rule refl refl refl refl refl)
      (list_step json w laws _ _ _ _ refl (string_step json w laws _ _ _ _ refl refl))

pub dns_rule-print :
    {Value Object : Type 0} (json : JsonApi Value Object) (w : JsonWriter Value Object)
    (laws : JsonLaws json w)
    → (c : DnsRuleConfig) → parse_dns_rule_config json (print_dns_rule_config w c) ≡ ok c
unfolding parse_dns_rule_config print_dns_rule_config find_member bytes_eq
dns_rule-print json w laws c =
    ok_step _ _ _ (domain_rule-members json w laws _ c.rule refl refl refl refl)
      (list_step json w laws _ _ _ _ refl (string_step json w laws _ _ _ _ refl refl))

pub outbound-print :
    {Value Object : Type 0} (json : JsonApi Value Object) (w : JsonWriter Value Object)
    (laws : JsonLaws json w)
    → (c : OutboundConfig) → c.server_port < 2 ^ 16
    → parse_outbound_config json (print_outbound_config w c) ≡ ok c
unfolding parse_outbound_config print_outbound_config find_member bytes_eq
outbound-print json w laws c small = string_step json w laws _ _ _ _ refl (
    string_step json w laws _ _ _ _ refl (
      string_step json w laws _ _ _ _ refl (
        port_step json w laws _ _ _ _ small refl (
          object_step json w laws _ _ _ _ refl (
            ok_step _ _ _ (tls_client-print json w laws c.tls) (
              object_step json w laws _ _ _ _ refl (
                ok_step _ _ _ (user_pass-print json w laws c.user) (
                  object_step json w laws _ _ _ _ refl (
                    ok_step _ _ _ (transport-print json w laws c.transport)
                      (string_step json w laws _ _ _ _ refl refl))))))))))

pub dns_server-print :
    {Value Object : Type 0} (json : JsonApi Value Object) (w : JsonWriter Value Object)
    (laws : JsonLaws json w)
    → (c : DnsServerConfig) → c.server_port < 2 ^ 16
    → parse_dns_server_config json (print_dns_server_config w c) ≡ ok c
unfolding parse_dns_server_config print_dns_server_config find_member bytes_eq
dns_server-print json w laws c small = string_step json w laws _ _ _ _ refl (
    port_step json w laws _ _ _ _ small refl (
      string_step json w laws _ _ _ _ refl (
        string_step json w laws _ _ _ _ refl (
          string_step json w laws _ _ _ _ refl (
            object_step json w laws _ _ _ _ refl (
              ok_step _ _ _ (tls_client-print json w laws c.tls)
                (string_step json w laws _ _ _ _ refl refl)))))))

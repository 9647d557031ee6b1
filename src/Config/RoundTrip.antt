-- ===== src/Config/RoundTrip.antt =====
-- The configuration read back from its JSON form.
use cppsong.Base.{◌^◌, ◌<◌, ◌≡◌, refl, sym, ap, bytes_eq}
use cppsong.Base.Lists.{All, every-All, map-All}
use cppsong.Base.Outcome.{ok}
use cppsong.Json.{JsonApi}
use cppsong.Config.Types.{
  TlsServerConfig, DnsServerConfig, DnsConfig, InboundConfig, OutboundConfig, RouterConfig,
  AppConfig,
}
use cppsong.Config.Parse.{
  parse_dns_config, parse_inbound_config, parse_router_config, pares_app_config,
}
use cppsong.Config.Print.{
  print_dns_config, print_inbound_config, print_router_config, print_app_config,
}
use cppsong.Json.Writer.{JsonWriter, find_member, JsonLaws}
use cppsong.Config.Steps.{
  ok_step, string_step, object_step, array_step, port_step, list_step, each_object-map,
}
use cppsong.Config.Records.{
  user_pass-print, rule_set-print, route_rule-print, dns_rule-print, outbound-print,
  dns_server-print,
}

pub inbound-print :
    {Value Object : Type 0} (json : JsonApi Value Object) (w : JsonWriter Value Object)
    (laws : JsonLaws json w)
    → (unset : TlsServerConfig) (c : InboundConfig) → c.listen_port < 2 ^ 16
    → c.tls ≡ unset
    → parse_inbound_config json unset (print_inbound_config w c) ≡ ok c
unfolding parse_inbound_config print_inbound_config find_member bytes_eq
inbound-print json w laws unset c small same = string_step json w laws _ _ _ _ refl (
    string_step json w laws _ _ _ _ refl (
      string_step json w laws _ _ _ _ refl (
        port_step json w laws _ _ _ _ small refl (
          array_step json w laws _ _ _ _ refl (
            ok_step _ _ _
              (each_object-map json w laws _ _ _ (every-All c.users (user_pass-print json w laws)))
              (list_step json w laws _ _ _ _ refl (
                string_step json w laws _ _ _ _ refl (
                  string_step json w laws _ _ _ _ refl (
                    string_step json w laws _ _ _ _ refl (
                      string_step json w laws _ _ _ _ refl (
                        ap (λ (t : TlsServerConfig). ok (record c { tls = t }))
                          (sym same))))))))))))

pub router-print :
    {Value Object : Type 0} (json : JsonApi Value Object) (w : JsonWriter Value Object)
    (laws : JsonLaws json w)
    → (c : RouterConfig) → parse_router_config json (print_router_config w c) ≡ ok c
unfolding parse_router_config print_router_config find_member bytes_eq
router-print json w laws c = string_step json w laws _ _ _ _ refl (
    array_step json w laws _ _ _ _ refl (
      ok_step _ _ _
        (each_object-map json w laws _ _ _ (every-All c.rules (route_rule-print json w laws)))
        (array_step json w laws _ _ _ _ refl (
          ok_step _ _ _
            (each_object-map json w laws _ _ _ (every-All c.rule_sets (rule_set-print json w laws)))
            refl))))

pub dns-print :
    {Value Object : Type 0} (json : JsonApi Value Object) (w : JsonWriter Value Object)
    (laws : JsonLaws json w)
    → (c : DnsConfig) → c.listen_port < 2 ^ 16
    → All (λ (s : DnsServerConfig). s.server_port < 2 ^ 16) c.servers
    → parse_dns_config json (print_dns_config w c) ≡ ok c
unfolding parse_dns_config print_dns_config find_member bytes_eq
dns-print json w laws c small ports = array_step json w laws _ _ _ _ refl (
    ok_step _ _ _
      (each_object-map json w laws _ _ _
        (map-All c.servers (λ a fit. dns_server-print json w laws a fit) ports))
      (array_step json w laws _ _ _ _ refl (
        ok_step _ _ _
          (each_object-map json w laws _ _ _ (every-All c.rules (dns_rule-print json w laws)))
          (string_step json w laws _ _ _ _ refl (
            port_step json w laws _ _ _ _ small refl
              (string_step json w laws _ _ _ _ refl refl))))))

-- Ports are below 2 ^ 16, and what is never read is what it was.
pub record Fits (unset : TlsServerConfig) (c : AppConfig) : Type 0 where
  pub inbounds : All (λ (i : InboundConfig). (i.listen_port < 2 ^ 16) × (i.tls ≡ unset)) c.inbounds
  pub outbound_ports : All (λ (o : OutboundConfig). o.server_port < 2 ^ 16) c.outbounds
  pub server_ports : All (λ (s : DnsServerConfig). s.server_port < 2 ^ 16) c.dns.servers
  pub dns_port : c.dns.listen_port < 2 ^ 16

-- A configuration whose ports fit, written as JSON with every member, is read back as it is, by any
-- reader and writer of JSON that agree; the `tls` of an inbound is what it was before.
pub pares_app_config-print :
    {Value Object : Type 0} (json : JsonApi Value Object) (w : JsonWriter Value Object)
    (laws : JsonLaws json w)
    → (unset : TlsServerConfig) (c : AppConfig) → Fits unset c
    → pares_app_config json unset (print_app_config w c) ≡ ok c
unfolding pares_app_config print_app_config find_member bytes_eq
pares_app_config-print json w laws unset c fits = array_step json w laws _ _ _ _ refl (
    ok_step _ _ _
      (each_object-map json w laws _ _ _
        (map-All c.inbounds (λ a fit. inbound-print json w laws unset a fit.0 fit.1) fits.inbounds))
      (array_step json w laws _ _ _ _ refl (
        ok_step _ _ _
          (each_object-map json w laws _ _ _
            (map-All c.outbounds (λ a fit. outbound-print json w laws a fit) fits.outbound_ports))
          (object_step json w laws _ _ _ _ refl (
            ok_step _ _ _ (router-print json w laws c.router) (
              object_step json w laws _ _ _ _ refl (
                ok_step _ _ _ (dns-print json w laws c.dns fits.dns_port fits.server_ports)
                  refl)))))))

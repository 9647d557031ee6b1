-- ===== src/Config/Types.antt =====
-- The configuration records of src/config/config.hpp. A `u16` is a number below 2 ^ 16.
use cppsong.Base.{ℕ, Bool, List, Bytes}

pub record TlsClientConfig : Type 0 where
  pub enabled : Bool
  pub insecure : Bool
  pub server_name : Bytes

pub record TlsServerConfig : Type 0 where
  pub enabled : Bool
  pub certificate_path : Bytes
  pub key_path : Bytes

pub record DomainRuleConfig : Type 0 where
  pub domain : List Bytes
  pub domain_suffix : List Bytes
  pub domain_keyword : List Bytes
  pub domain_regex : List Bytes

pub record RuleConfig : Type 0 where
  pub domain_rule : DomainRuleConfig
  pub cidr : List Bytes

pub record DnsServerConfig : Type 0 where
  pub tag : Bytes
  pub type : Bytes
  pub server : Bytes
  pub server_port : ℕ
  pub host : Bytes
  pub path : Bytes
  pub tls : TlsClientConfig

pub record DnsRuleConfig : Type 0 where
  pub rule : DomainRuleConfig
  pub rule_set : List Bytes
  pub server : Bytes

pub record DnsConfig : Type 0 where
  pub listen : Bytes
  pub listen_port : ℕ
  pub servers : List DnsServerConfig
  pub rules : List DnsRuleConfig
  pub final : Bytes

pub record TransportConfig : Type 0 where
  pub type : Bytes
  pub path : Bytes
  pub host : Bytes

pub record UserPassConfig : Type 0 where
  pub username : Bytes
  pub password : Bytes

pub record InboundConfig : Type 0 where
  pub tag : Bytes
  pub type : Bytes
  pub listen : Bytes
  pub listen_port : ℕ
  pub users : List UserPassConfig
  pub uuids : List Bytes
  pub tls : TlsServerConfig
  pub tun_ipv4 : Bytes
  pub tun_ipv6 : Bytes
  pub tun_next_ipv4 : Bytes
  pub tun_next_ipv6 : Bytes

pub record OutboundConfig : Type 0 where
  pub tag : Bytes
  pub type : Bytes
  pub server : Bytes
  pub server_port : ℕ
  pub user : UserPassConfig
  pub uuid : Bytes
  pub tls : TlsClientConfig
  pub transport : TransportConfig

pub record RouteRuleConfig : Type 0 where
  pub rule : RuleConfig
  pub rule_set : List Bytes
  pub outbound : Bytes

pub record RuleSetConfig : Type 0 where
  pub tag : Bytes
  pub type : Bytes
  pub path : Bytes
  pub format : Bytes

pub record RouterConfig : Type 0 where
  pub rules : List RouteRuleConfig
  pub rule_sets : List RuleSetConfig
  pub final : Bytes

pub record AppConfig : Type 0 where
  pub inbounds : List InboundConfig
  pub outbounds : List OutboundConfig
  pub router : RouterConfig
  pub dns : DnsConfig

-- ===== src/Builder/Outbound.antt =====
-- `buildInbound` and `buildOutbound`: the ends of the proxy, as they are constructed.
use cppsong.Base.{ℕ, Bool, ◌&&◌, ◌||◌, List, [], Bytes, Option, none, some, bytes_eq, if◌then◌else◌}
use cppsong.Base.Ends.{Ends, bind-Ends, if-Ends}
use cppsong.Base.Outcome.{
  Outcome, ok, throw, ◌>>=◌, unsupported_inbound, unsupported_outbound, unsupported_transport,
}
use cppsong.Base.Text.{codes}
use cppsong.Builder.Uuid.{IsUuid, build_uuid, build_uuid-Ends}
use cppsong.Config.Types.{InboundConfig, OutboundConfig}
use cppsong.Ip.{Host, domain_name, ip_address, Address}
use cppsong.Router.Cidr.{valid_address}

pub data Transport : Type 0 where
  tcp_transport : Transport
  tls_transport : Bytes → Bool → Transport
  wss_transport : Bytes → Bytes → Bytes → Bool → Transport

pub data Outbound (Ip : Type 0) : Type 0 where
  direct_outbound : Outbound Ip
  vless_outbound : Transport → Address Ip → Bytes → Outbound Ip

-- `UserPass` of common/userpass.hpp
pub record UserPass : Type 0 where
  pub username : Bytes
  pub password : Bytes

-- The listener of an inbound is at an address and a port.
pub record MixedInbound (Ip : Type 0) : Type 0 where
  pub listener : Ip × ℕ
  pub users : List UserPass
  pub uuids : List Bytes

unfoldable pub build_transport : OutboundConfig → Outcome Transport
build_transport config =
    if bytes_eq config.transport.type [] || bytes_eq config.transport.type (codes "tcp")
    then (if config.tls.enabled
        then ok (tls_transport config.tls.server_name config.tls.insecure)
        else ok tcp_transport)
    else if bytes_eq config.transport.type (codes "ws") && config.tls.enabled
    then ok (
        wss_transport config.transport.host config.transport.path config.tls.server_name
          config.tls.insecure)
    else throw unsupported_transport

module _ {Ip : Type 0} (make_address : Bytes → Option Ip) where
  abbrev host_of : Bytes → Option Ip → Host Ip
  host_of server none = domain_name server
  host_of server (some ip) = ip_address ip

  unfoldable pub build_address : Bytes → ℕ → Address Ip
  build_address server port = record { address = host_of server (make_address server); port = port }

  unfoldable pub build_listener : InboundConfig → Outcome (Ip × ℕ)
  build_listener config = do
    ip ← valid_address (make_address config.listen)
    ok (ip, config.listen_port)

  -- The users of the configuration do not reach the inbound.
  unfoldable pub build_inbound : InboundConfig → Outcome (MixedInbound Ip)
  unfolding build_listener
  build_inbound config =
      if bytes_eq config.type (codes "mixed")
      then (do
        listener ← build_listener config
        ok (record { listener = listener; users = []; uuids = [] }))
      else throw unsupported_inbound

  unfoldable pub build_outbound : OutboundConfig → Outcome (Outbound Ip)
  unfolding build_address
  build_outbound config = do
    transport ← build_transport config
    if bytes_eq config.type (codes "direct")
        then ok direct_outbound
        else if bytes_eq config.type (codes "vless")
        then (do
          uuid ← build_uuid config.uuid
          ok (vless_outbound transport (build_address config.server config.server_port) uuid))
        else throw unsupported_outbound

  -- A VLESS outbound identifies itself by sixteen bytes.
  abbrev pub HasUuid : Outbound Ip → Type 0
  HasUuid direct_outbound = Unit {0}
  HasUuid (vless_outbound transport server uuid) = IsUuid 16 uuid

  abbrev Any : {A : Type 0} → A → Type 0
  Any _ = Unit {0}

  build_transport-Ends : (config : OutboundConfig) → Ends Any (build_transport config)
  unfolding build_transport
  build_transport-Ends config =
      if-Ends Any
        (bytes_eq config.transport.type [] || bytes_eq config.transport.type (codes "tcp")) _ _
        (λ _. if-Ends Any config.tls.enabled _ _ (λ _. tt) (λ _. tt))
        (λ _.
          if-Ends Any (bytes_eq config.transport.type (codes "ws") && config.tls.enabled) _ _
            (λ _. tt) (λ _. tt))

  -- `buildOutbound` gives an outbound or throws; the outbound of a VLESS server has sixteen bytes to
  -- identify itself by.
  pub build_outbound-HasUuid : (config : OutboundConfig) → Ends HasUuid (build_outbound config)
  unfolding build_outbound
  build_outbound-HasUuid config =
      bind-Ends HasUuid Any (build_transport config) _ (build_transport-Ends config) λ transport _.
        if-Ends HasUuid (bytes_eq config.type (codes "direct")) _ _ (λ _. tt)
          λ _.
            if-Ends HasUuid (bytes_eq config.type (codes "vless")) _ _
              (λ _.
                bind-Ends HasUuid (IsUuid 16) (build_uuid config.uuid) _
                  (build_uuid-Ends config.uuid) λ uuid is. is)
              (λ _. tt)

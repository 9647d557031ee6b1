-- ===== src/App/Proxy.antt =====
-- A session from its first bytes to the server of a VLESS outbound.
use cppsong.Base.{◌≡◌, refl, ap, ◌∙◌, ◌<◌, ◌^◌, ◌++◌, Bool, ◌∷◌, Bytes, some}
use cppsong.Base.Cursor.{Returns-ok}
use cppsong.Base.Lists.{length}
use cppsong.Base.Outcome.{Outcome, ok, ◌>>=◌}
use cppsong.App.{
  Outbounds, relayed, outbound_of, caught, relay_through, dispatch, route_sniffed, handle_session,
}
use cppsong.App.Dispatch.{sniffed_address-domain}
use cppsong.Builder.Outbound.{Transport, Outbound, vless_outbound}
use cppsong.Connection.{Connection, IsStream}
use cppsong.Inbound.{Session}
use cppsong.Inbound.Socks.{name}
use cppsong.Ip.{IpApi, Address, domain_name}
use cppsong.Outbound.{IpBytes, request_data}
use cppsong.Outbound.Connect.{vless_connect, vless_connect-Connected, outbound_connect}
use cppsong.Outbound.Request.{parse_request, parse_request-request_data}
use cppsong.Router.{Router, router_match}
use cppsong.Sniff.{sniff_domain}
use cppsong.Sniff.ClientHello.{sniff_domain-encode}
use cppsong.Sniff.Format.{ClientHello, encode, IsWellFormed}

module _ {Regex Ip C D : Type 0} (regex_match : Regex → Bytes → Bool) (api : IpApi Ip)
    (bytes : IpBytes Ip) (conn : Connection C) (stream : IsStream conn)
    (dial : Transport → Address Ip → Outcome C) (relay : D → C → Outcome (Unit {0})) where
  -- The session with the host name of the ClientHello for its address.
  abbrev for_host : Bytes → Session Ip → Session Ip
  for_host host session = record session {
    address = record { address = domain_name host; port = session.address.port };
  }

  -- When the rules choose a VLESS outbound for the host name of a well-formed ClientHello, this
  -- has less than 256 bytes, the port and the identity have theirs, the outbound's transport
  -- connects to its server on a connection that works, and the server answers with two zeros:
  -- then the session ends as the relay of the client's connection and the server's does, the
  -- server was sent one request, of the version 0, without add-ons and with the command 1, in
  -- which a server that takes no other reads the identity, the host name, the port that the
  -- client asked for and the client's first bytes, what it answers behind the zeros is still to
  -- come, and the outbounds stay as they are.
  pub handle_session-vless :
      (router : Router Regex Ip) (outbounds : Outbounds (Outbound Ip)) (client : D)
      (session : Session Ip) (h : ClientHello) (rest : Bytes) (tag : Bytes) (transport : Transport)
      (server : Address Ip) (uuid : Bytes) (c : C) (answer : Bytes)
      → IsWellFormed h
      → session.first_data ≡ encode h rest
      → length h.host < 2 ^ 8
      → session.address.port < 2 ^ 16
      → length uuid ≡ 16
      → router_match regex_match api router (for_host h.host session).address ≡ ok tag
      → outbound_of tag outbounds ≡ (some (vless_outbound transport server uuid), outbounds)
      → dial transport server ≡ ok c
      → stream.input c ≡ 0 ∷ 0 ∷ answer
      → (request : Bytes) × (remote : C) × (handle_session regex_match api
            (outbound_connect conn bytes dial)
            relay
            router
            outbounds
            client
            session
          ≡ (caught (relay client remote >>= λ done. ok relayed), outbounds))
        × (stream.sent remote ≡ stream.sent c ++ request)
        × (parse_request request
            ≡ some (record {
              uuid = uuid;
              target = name h.host;
              port = session.address.port;
              payload = session.first_data;
            }))
        × (stream.input remote ≡ answer)
  unfolding handle_session route_sniffed dispatch relay_through outbound_connect
  handle_session-vless router outbounds client session h rest tag transport server uuid c answer
        good hello short small size matched found dialled input =
      let target = for_host h.host session in
      let (remote, connects, (left, sent)) =
        Returns-ok (vless_connect conn (dial transport) bytes server uuid target) (
          vless_connect-Connected conn (dial transport) stream bytes server uuid target c answer
            dialled input) in
      (
        request_data bytes uuid target,
        remote,
        rw
            (
              ap sniff_domain hello ∙ sniff_domain-encode h rest good,
              sniffed_address-domain h.host session.address good.some_host,
              matched,
              found,
              connects,
            )
            refl,
        sent,
        parse_request-request_data bytes uuid target size small short,
        left,
      )

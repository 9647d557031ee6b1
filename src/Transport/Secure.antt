-- ===== src/Transport/Secure.antt =====
-- An outbound that is configured with TLS has no plain connection.
use cppsong.Base.{
  ◌≡◌, refl, sym, subst, Bool, true, false, not, ◌&&◌, ◌||◌, [], Bytes, bytes_eq, if◌then◌else◌,
}
use cppsong.Base.Text.{codes}
use cppsong.Base.Outcome.{ok, throw, tls_hostname, unsupported_transport}
use cppsong.Builder.Outbound.{
  Transport, tcp_transport, tls_transport, wss_transport, build_transport,
}
use cppsong.Config.Types.{OutboundConfig}
use cppsong.Connection.{◌>>◌, fail_if}
use cppsong.Connection.Steps.{run-ok}
use cppsong.Ip.{Address}
use cppsong.Transport.{
  Dialer, Opened, tcp_opened, tls_opened, wss_opened, secure, tcp_connect, tls_connect, wss_connect,
  transport_connect,
}

-- The kind of the transport is what the configuration says of TLS.
abbrev Configured : OutboundConfig → Transport → Type 0
Configured config tcp_transport = config.tls.enabled ≡ false
Configured config (tls_transport server_name insecure) =
    (config.tls.enabled ≡ true) × (server_name ≡ config.tls.server_name)
Configured config (wss_transport host path server_name insecure) =
    (config.tls.enabled ≡ true) × (server_name ≡ config.tls.server_name)

build_transport-Configured :
    (config : OutboundConfig) (transport : Transport)
    → build_transport config ≡ ok transport
    → Configured config transport
unfolding build_transport
build_transport-Configured config transport e =
    by_type (bytes_eq config.transport.type [] || bytes_eq config.transport.type (codes "tcp"))
      (bytes_eq config.transport.type (codes "ws")) config.tls.enabled refl e
  where
    by_type :
        (plain ws enabled : Bool)
        → config.tls.enabled ≡ enabled
        → (if plain
            then (if enabled
                then ok (tls_transport config.tls.server_name config.tls.insecure)
                else ok tcp_transport)
            else if ws && enabled
            then ok (
                wss_transport config.transport.host config.transport.path config.tls.server_name
                  config.tls.insecure)
            else throw unsupported_transport)
          ≡ ok transport
        → Configured config transport
    by_type true ws true tls e =
        subst (Configured config) {x = tls_transport config.tls.server_name config.tls.insecure}
          (cc) (tls, refl)
    by_type true ws false tls e = subst (Configured config) {x = tcp_transport} (cc) tls
    by_type false true true tls e =
        subst (Configured config)
          {x = wss_transport config.transport.host config.transport.path config.tls.server_name
            config.tls.insecure}
          (cc) (tls, refl)
    by_type false true false tls e = absurd (cc)
    by_type false false enabled tls e = absurd (cc)

module _ {Ip S N : Type 0} (dialer : Dialer Ip S N) where
  -- The server's name was set on the socket, and then its TLS handshake has succeeded.
  abbrev pub Secured : Bytes → S → Type 0
  Secured server_name socket =
      (n1 n2 n3 : N) × (dialer.set_host_name socket server_name n1 ≡ ok (true, n2))
      × (dialer.tls_handshake socket n2 ≡ ok (tt, n3))

  secure-Secured :
      (socket : S) (server_name : Bytes) (n n' : N)
      → secure dialer socket server_name n ≡ ok (tt, n')
      → Secured server_name socket
  unfolding secure
  secure-Secured socket server_name n n' e =
      let (done, n1, set, e1) = run-ok (dialer.set_host_name socket server_name) _ n e in
      by_answer done n1 set e1
    where
      by_answer :
          (done : Bool) (n1 : N)
          → dialer.set_host_name socket server_name n ≡ ok (done, n1)
          → (fail_if (not done) tls_hostname >> dialer.tls_handshake socket) n1 ≡ ok (tt, n')
          → Secured server_name socket
      by_answer true n1 set e1 = (n, n1, n', set, e1)
      by_answer false n1 set e1 = absurd (cc)

  -- With TLS the connection is not plain, and secured for the server; without TLS it is plain.
  abbrev pub Protected : Bool → Bytes → Opened S → Type 0
  Protected true server_name (tcp_opened socket) = ⊥
  Protected true server_name (tls_opened socket) = Secured server_name socket
  Protected true server_name (wss_opened socket) = Secured server_name socket
  Protected false server_name (tcp_opened socket) = Unit {0}
  Protected false server_name (tls_opened socket) = ⊥
  Protected false server_name (wss_opened socket) = ⊥

  secured_connect :
      (config : OutboundConfig) (transport : Transport) (address : Address Ip) (n n' : N)
      (opened : Opened S)
      → Configured config transport
      → transport_connect dialer transport address n ≡ ok (opened, n')
      → Protected config.tls.enabled config.tls.server_name opened
  unfolding transport_connect tcp_connect tls_connect wss_connect
  secured_connect config tcp_transport address n n' opened tls e =
      let (socket, n1, connected, e1) = run-ok (dialer.connect_address address) _ n e in
      rw tls (subst (Protected false config.tls.server_name) {x = tcp_opened socket} (cc) tt)
  secured_connect config (tls_transport server_name insecure) address n n' opened (tls, same) e =
      let (socket, n1, connected, e1) = run-ok (dialer.connect_address address) _ n e in
      let (done, n2, secured, e2) = run-ok (secure dialer socket server_name) _ n1 e1 in
      rw (tls, sym same)
        (subst (Protected true server_name) {x = tls_opened socket} (cc)
          (secure-Secured socket server_name n1 n2 secured))
  secured_connect config (wss_transport host path server_name insecure) address n n' opened
        (tls, same) e =
      let (socket, n1, connected, e1) = run-ok (dialer.connect_address address) _ n e in
      let (done, n2, secured, e2) = run-ok (secure dialer socket server_name) _ n1 e1 in
      let (shaken, n3, upgraded, e3) = run-ok (dialer.ws_handshake socket host path) _ n2 e2 in
      rw (tls, sym same)
        (subst (Protected true server_name) {x = wss_opened socket} (cc)
          (secure-Secured socket server_name n1 n2 secured))

  -- When the transport that is built from a configuration connects, then with `tls.enabled` the
  -- connection is not plain, its socket has the name of the configuration's server, and the TLS
  -- handshake has succeeded behind that; and without `tls.enabled` the connection is plain.
  pub transport_connect-Protected :
      (config : OutboundConfig) (transport : Transport) (address : Address Ip) (n n' : N)
      (opened : Opened S)
      → build_transport config ≡ ok transport
      → transport_connect dialer transport address n ≡ ok (opened, n')
      → Protected config.tls.enabled config.tls.server_name opened
  transport_connect-Protected config transport address n n' opened built connected =
      secured_connect config transport address n n' opened
        (build_transport-Configured config transport built) connected

-- ===== src/Transport.antt =====
-- src/transports: how the three transports of an outbound connect to an address, over sockets whose
-- operations are a parameter.
pub mod Secure
pub mod Https
mod Examples
use cppsong.Base.{ℕ, Bool, not, Bytes}
use cppsong.Base.Outcome.{tls_hostname}
use cppsong.Builder.Outbound.{Transport, tcp_transport, tls_transport, wss_transport}
use cppsong.Connection.{Io, ◌>>=◌, ◌>>◌, pure, fail_if}
use cppsong.Ip.{Address}

-- A socket is a handle, and what it has gone through is in the state of the network.
pub record Dialer (Ip S N : Type 0) : Type 0 where
  pub connect_address : Address Ip → Io N S
  -- `SSL_set_tlsext_host_name`, which says whether it has worked.
  pub set_host_name : S → Bytes → Io N Bool
  pub tls_handshake : S → Io N (Unit {0})
  -- With the host and the path.
  pub ws_handshake : S → Bytes → Bytes → Io N (Unit {0})

-- The connection that a transport makes, over its socket.
pub data Opened (S : Type 0) : Type 0 where
  tcp_opened : S → Opened S
  tls_opened : S → Opened S
  wss_opened : S → Opened S

module _ {Ip S N : Type 0} (dialer : Dialer Ip S N) where
  unfoldable pub secure : S → Bytes → Io N (Unit {0})
  secure socket server_name = dialer.set_host_name socket server_name >>= λ done.
      fail_if (not done) tls_hostname >> dialer.tls_handshake socket

  -- `TcpTransport::connect`
  unfoldable pub tcp_connect : Address Ip → Io N (Opened S)
  tcp_connect address = dialer.connect_address address >>= λ socket. pure (tcp_opened socket)

  -- `TlsTransport::connect`
  unfoldable pub tls_connect : Bytes → Address Ip → Io N (Opened S)
  unfolding secure
  tls_connect server_name address = dialer.connect_address address >>= λ socket.
      secure socket server_name >> pure (tls_opened socket)

  -- `WssTransport::connect`
  unfoldable pub wss_connect : Bytes → Bytes → Bytes → Address Ip → Io N (Opened S)
  unfolding secure
  wss_connect host path server_name address = dialer.connect_address address >>= λ socket.
      secure socket server_name
      >> (dialer.ws_handshake socket host path >> pure (wss_opened socket))

  -- `transport_->connect`. The certificate is verified by none of them, whatever `insecure` says.
  unfoldable pub transport_connect : Transport → Address Ip → Io N (Opened S)
  unfolding tcp_connect tls_connect wss_connect
  transport_connect tcp_transport address = tcp_connect address
  transport_connect (tls_transport server_name insecure) address = tls_connect server_name address
  transport_connect (wss_transport host path server_name insecure) address =
      wss_connect host path server_name address

-- ===== src/Transport/Https.antt =====
-- src/dns/servers: the two kinds of DNS server that a configuration names, over the network.
use cppsong.Base.{ℕ, Bytes}
use cppsong.Base.Text.{codes}
use cppsong.Builder.Dns.{ServerSpec, udp_server, https_server}
use cppsong.Connection.{Io, ◌>>=◌, ◌>>◌, pure}
use cppsong.Dns.Center.Serving.{Sockets, udp_relay}
use cppsong.Transport.{Dialer, secure}

-- A POST of HTTP/1.1.
pub record Request : Type 0 where
  pub target : Bytes
  pub host : Bytes
  pub content_type : Bytes
  pub accept : Bytes
  pub body : Bytes

pub record Response : Type 0 where
  pub status : ℕ
  pub body : Bytes

-- `connect_ip`, and `http::async_write` and `http::async_read` over a TLS stream.
pub record Http (Ip S N : Type 0) : Type 0 where
  pub connect_ip : Ip → ℕ → Io N S
  pub write_request : S → Request → Io N (Unit {0})
  pub read_response : S → Io N Response

abbrev dns_message : Bytes
dns_message = codes "application/dns-message"

abbrev pub post : Bytes → Bytes → Bytes → Request
post host path query = record {
  target = path;
  host = host;
  content_type = dns_message;
  accept = dns_message;
  body = query;
}

module _ {Ip S N : Type 0} (dialer : Dialer Ip S N) (http : Http Ip S N) where
  -- `HttpsDnsServer::relay`, which does not look at the status.
  unfoldable pub https_relay : Ip → ℕ → Bytes → Bytes → Bytes → Bytes → Io N Bytes
  https_relay ip port host path server_name query = http.connect_ip ip port >>= λ socket.
      secure dialer socket server_name
      >> (http.write_request socket (post host path query)
          >> (http.read_response socket >>= λ response. pure response.body))

  -- `DnsServer::relay`
  unfoldable pub server_relay : Sockets (Ip × ℕ) S N → ServerSpec Ip → Bytes → Io N Bytes
  unfolding https_relay
  server_relay sockets (udp_server ip port) query = udp_relay sockets (ip, port) query
  server_relay sockets (https_server ip port host path server_name insecure) query =
      https_relay ip port host path server_name query

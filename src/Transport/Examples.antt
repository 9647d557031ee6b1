-- ===== src/Transport/Examples.antt =====
-- A network on which every call succeeds; a socket is the address's port.
use cppsong.Base.{ℕ, ◌≡◌, refl, true, false, [], Bytes, bytes_eq}
use cppsong.Base.Outcome.{ok}
use cppsong.Base.Text.{codes}
use cppsong.Builder.Outbound.{wss_transport, build_transport}
use cppsong.Config.Types.{OutboundConfig}
use cppsong.Ip.{domain_name, Address}
use cppsong.Transport.{Dialer, wss_opened, secure, wss_connect, transport_connect}
use cppsong.Transport.Secure.{Protected, transport_connect-Protected}

abbrev dialer : Dialer Bytes ℕ ℕ
dialer = record {
  connect_address = λ address n. ok (address.port, n);
  set_host_name = λ socket server_name n. ok (true, 1);
  tls_handshake = λ socket n. ok (tt, 2);
  ws_handshake = λ socket host path n. ok (tt, 3);
}

abbrev config : OutboundConfig
config = record {
  tag = codes "out";
  type = codes "vless";
  server = codes "a.b";
  server_port = 443;
  user = record { username = []; password = [] };
  uuid = [];
  tls = record { enabled = true; server_name = codes "a.b"; insecure = false };
  transport = record { type = codes "ws"; path = codes "/"; host = codes "a.b" };
}

abbrev server : Address Bytes
server = record { address = domain_name (codes "a.b"); port = 443 }

built : build_transport config ≡ ok (wss_transport (codes "a.b") (codes "/") (codes "a.b") false)
unfolding build_transport bytes_eq
built = refl

connects :
    transport_connect dialer (wss_transport (codes "a.b") (codes "/") (codes "a.b") false) server 0
    ≡ ok (wss_opened 443, 3)
unfolding transport_connect wss_connect secure
connects = refl

transport_connect-Protected_example : Protected dialer true (codes "a.b") (wss_opened 443)
transport_connect-Protected_example =
    transport_connect-Protected dialer config
      (wss_transport (codes "a.b") (codes "/") (codes "a.b") false) server 0 3 (wss_opened 443)
      built connects

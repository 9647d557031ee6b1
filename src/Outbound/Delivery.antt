-- ===== src/Outbound/Delivery.antt =====
-- A VLESS outbound and the relay behind it: what the server is sent of what the client sends, and
-- the client of what the server answers.
use cppsong.Base.{◌*◌, ◌^◌, ◌<◌, ◌≡◌, ap, ◌∙◌, ◌∷◌, ◌++◌, append_assoc, Bytes, List, some}
use cppsong.Base.Cursor.{Returns-ok}
use cppsong.Base.Lists.{length}
use cppsong.Base.Outcome.{Outcome, ok}
use cppsong.Connection.{Connection, IsStream}
use cppsong.Inbound.{Session}
use cppsong.Inbound.Socks.{TargetFits}
use cppsong.Ip.{Address}
use cppsong.Outbound.{IpBytes, request_data}
use cppsong.Outbound.Connect.{vless_connect, vless_connect-Connected}
use cppsong.Outbound.Request.{target_of, parse_request, parse_request-request_data}
use cppsong.Relay.{Turn, spawn_relay, run}
use cppsong.Relay.Ending.{there_turns, back_turns, run-delivers}

module _ {C D Ip : Type 0} (bytes : IpBytes Ip) (client_conn : Connection D)
    (client_stream : IsStream client_conn) (conn : Connection C) (stream : IsStream conn)
    (dial : Address Ip → Outcome C) where
  -- The session as if more had come at once.
  abbrev with_more : Session Ip → Bytes → Session Ip
  with_more session more = record session { first_data = session.first_data ++ more }

  request_data-append :
      (uuid : Bytes) (session : Session Ip) (more : Bytes)
      → request_data bytes uuid session ++ more ≡ request_data bytes uuid (with_more session more)
  unfolding request_data
  request_data-append uuid session more = append_assoc _ session.first_data more

  -- When the server of a VLESS outbound answers with two zeros, then over connections that work,
  -- and behind a schedule of the relay in which each coroutine goes on more than twice as often
  -- as there are bytes for it to come, for an identity of sixteen bytes, a port of sixteen bits,
  -- and a domain of less than 256 bytes or an address with the bytes of its family, the server
  -- has been sent one request, of the version 0, without add-ons and with the command 1, in which
  -- a server that takes no other reads the identity, the host and the port, and behind them the
  -- first data of the session and all that the client still sends; and the client has been sent
  -- all that the server answers behind the zeros.
  pub vless_connect-delivers :
      (server : Address Ip) (uuid : Bytes) (session : Session Ip) (client : D) (c : C)
      (rest answer : Bytes) (turns : List Turn)
      → length uuid ≡ 16
      → session.address.port < 2 ^ 16
      → TargetFits (target_of bytes session.address.address)
      → dial server ≡ ok c
      → stream.input c ≡ 0 ∷ 0 ∷ answer
      → client_stream.input client ≡ rest
      → 2 * length rest < there_turns turns
      → 2 * length answer < back_turns turns
      → (remote : C) × (request : Bytes) × (vless_connect conn dial bytes server uuid session
          ≡ ok remote)
        × (stream.sent
              (run client_conn conn turns (spawn_relay client_conn conn client remote)).conn2
            ≡ stream.sent c ++ request)
        × (parse_request request
            ≡ some (record {
              uuid = uuid;
              target = target_of bytes session.address.address;
              port = session.address.port;
              payload = session.first_data ++ rest;
            }))
        × (client_stream.sent
              (run client_conn conn turns (spawn_relay client_conn conn client remote)).conn1
            ≡ client_stream.sent client ++ answer)
  vless_connect-delivers server uuid session client c rest answer turns size small fits dialled
        input more there back =
      let (remote, connects, (left, sent)) =
        Returns-ok (vless_connect conn dial bytes server uuid session) (
          vless_connect-Connected conn dial stream bytes server uuid session c answer dialled
            input) in
      let (to_server, to_client) =
        run-delivers client_conn conn client_stream stream client remote turns (rw more there)
          (rw left back) in
      (
        remote,
        request_data bytes uuid (with_more session rest),
        connects,
        to_server
            ∙ rw (sent, more)
                (append_assoc (stream.sent c) (request_data bytes uuid session) rest
                  ∙ ap (λ v. stream.sent c ++ v) (request_data-append uuid session rest)),
        parse_request-request_data bytes uuid (with_more session rest) size small fits,
        to_client ∙ ap (λ v. client_stream.sent client ++ v) left,
      )

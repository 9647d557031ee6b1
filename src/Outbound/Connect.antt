-- ===== src/Outbound/Connect.antt =====
-- The outbounds of src/outbounds: what `connect` has done to the connection that it gives.
use cppsong.Base.{◌≡◌, refl, ◌∙◌, [], ◌∷◌, ◌++◌, Bytes}
use cppsong.Base.Cursor.{Returns}
use cppsong.Base.Outcome.{Outcome, ok, throw, bad_index, bad_address, hang, ◌>>=◌, at}
use cppsong.Builder.Outbound.{Transport, tcp_transport, Outbound, direct_outbound, vless_outbound}
use cppsong.Connection.{Connection, IsStream}
use cppsong.Connection.Steps.{read_exactly-Returns, write-Returns}
use cppsong.Inbound.{Session}
use cppsong.Ip.{Address}
use cppsong.Outbound.{IpBytes, request_data, handshake}

-- `Transport::connect` is a parameter, which gives a connection to an address.
module _ {C Ip : Type 0} (conn : Connection C) (dial : Address Ip → Outcome C) where
  -- `DirectOutbound::connect`
  unfoldable pub direct_connect : Session Ip → Outcome C
  direct_connect session = do
    c ← dial session.address
    written ← conn.write session.first_data c
    ok written.1

  -- `VlessOutbound::connect`
  unfoldable pub vless_connect : IpBytes Ip → Address Ip → Bytes → Session Ip → Outcome C
  unfolding handshake request_data
  vless_connect api server uuid session = do
    c ← dial server
    shaken ← handshake conn (request_data api uuid session) c
    ok shaken.1

  -- The server was sent the request, and what it answers behind two zeros is still to come.
  abbrev pub Connected : (stream : IsStream conn) → C → Bytes → Bytes → C → Type 0
  Connected stream c request rest c' =
      (stream.input c' ≡ rest) × (stream.sent c' ≡ stream.sent c ++ request)

  handshake-Connected :
      (stream : IsStream conn) (c : C) (request rest : Bytes)
      → stream.input c ≡ 0 ∷ 0 ∷ rest
      → Returns (λ r. Connected stream c request rest r.1) (handshake conn request c)
  unfolding handshake at
  handshake-Connected stream c request rest have =
      write-Returns conn stream (λ r. Connected stream c request rest r.1) c request _
        λ c1 input1 sent1.
          read_exactly-Returns conn stream (λ r. Connected stream c request rest r.1) c1 2
            (0 ∷ 0 ∷ []) rest _ (input1 ∙ have) refl λ c2 input2 sent2. (input2, sent2 ∙ sent1)

  -- When the transport connects to the server, on a connection that works and whose server answers
  -- with two zeros, the connection is handed over with the request sent and with what follows the
  -- zeros still to come.
  pub vless_connect-Connected :
      (stream : IsStream conn) (api : IpBytes Ip) (server : Address Ip) (uuid : Bytes)
      (session : Session Ip) (c : C) (rest : Bytes)
      → dial server ≡ ok c
      → stream.input c ≡ 0 ∷ 0 ∷ rest
      → Returns
          (Connected stream c (request_data api uuid session) rest)
          (vless_connect api server uuid session)
  unfolding vless_connect
  vless_connect-Connected stream api server uuid session c rest dialled have =
      rw (dialled, Returns)
        (after (handshake conn (request_data api uuid session) c)
          (handshake-Connected stream c (request_data api uuid session) rest have))
    where
      after :
          (m : Outcome (Unit {0} × C))
          → Returns (λ r. Connected stream c (request_data api uuid session) rest r.1) m
          → Returns
              (Connected stream c (request_data api uuid session) rest)
              (m >>= λ shaken. ok shaken.1)
      after (ok shaken) h = h
      after (throw e) h = absurd h
      after (bad_index i) h = absurd h
      after (bad_address i) h = absurd h
      after hang h = absurd h

-- `Outbound::connect` of the outbound that the builder has made; a direct one has a transport of
-- its own. `dial` is what a transport's `connect` gives.
module _ {C Ip : Type 0} (conn : Connection C) (api : IpBytes Ip)
    (dial : Transport → Address Ip → Outcome C) where
  unfoldable pub outbound_connect : Outbound Ip → Session Ip → Outcome C
  unfolding direct_connect vless_connect
  outbound_connect direct_outbound session = direct_connect conn (dial tcp_transport) session
  outbound_connect (vless_outbound transport server uuid) session =
      vless_connect conn (dial transport) api server uuid session

-- ===== src/Inbound/Clients.antt =====
-- src/inbounds/mixed.cpp: `mainWork_`, the clients of an inbound.
use cppsong.Base.{ℕ, List, [], ◌∷◌, ◌++◌, Bytes, Option, none, some}
use cppsong.Base.Outcome.{Outcome, ok, throw, bad_index, bad_address, hang}
use cppsong.Builder.Outbound.{UserPass}
use cppsong.Connection.{Connection}
use cppsong.Inbound.{Session}
use cppsong.Inbound.Http.{Url, handle}

-- What a `handle_` puts into the queue of sessions: nothing when it has closed the connection, or
-- ends in an exception, which goes no further.
abbrev pub session_of : {C Ip : Type 0} → Outcome (Option (Session Ip) × C) → List (C × Session Ip)
session_of (ok (some session, conn)) = (conn, session) ∷ []
session_of (ok (none, conn)) = []
session_of (throw e) = []
session_of (bad_index i) = []
session_of (bad_address i) = []
session_of hang = []

module _ {C Ip : Type 0} (conn : Connection C) (parse_uri_reference : Bytes → Option Url)
    (make_address : Bytes → Option Ip) (of_v4 of_v6 : Bytes → Ip) where
  -- The queue behind the handling of the clients, in the order in which they are done.
  unfoldable pub accept_clients : ℕ → List UserPass → List C → List (C × Session Ip)
  unfolding handle
  accept_clients fuel users [] = []
  accept_clients fuel users (client ∷ clients) =
      session_of (handle conn parse_uri_reference make_address of_v4 of_v6 fuel users client)
      ++ accept_clients fuel users clients

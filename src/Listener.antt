-- ===== src/Listener.antt =====
-- src/listeners: what a listener does with a socket that it has accepted. A session is the
-- connection that is put into the queue of sessions.
pub mod Upgrade
mod Examples
use cppsong.Base.{◌≡◌, Bool, true, false, not, List, [], ◌∷◌, ◌++◌, Bytes, bytes_eq}
use cppsong.Base.Outcome.{Outcome, ok, throw, bad_index, bad_address, hang, error_path}
use cppsong.Queue.{Get}
use cppsong.Queue.Source.{Event, Source, work}
use cppsong.Connection.{Io, ◌>>=◌, ◌>>◌, pure, fail_if}

-- The server's side of a WebSocket: `http::async_read`, which gives the target of a request, and
-- `async_accept`, which is not given a request.
pub record Upgrades (S N : Type 0) : Type 0 where
  pub read_request : S → Io N Bytes
  pub async_accept : S → Io N (Unit {0})

-- What is put into the queue.
pub data Accepted (S : Type 0) : Type 0 where
  tcp_session : S → Accepted S
  ws_session : S → Accepted S

-- `TcpListener`: the sockets that come to it, and the calls of `session` and `close`.
abbrev pub tcp_listen :
    {S : Type 0}
    → List (Event S)
    → Source (Accepted S)
    → List (Get (Accepted S))
    → Source (Accepted S) × List (Get (Accepted S))
tcp_listen events source gets = work (λ s. tcp_session s) events source gets

module _ {S N : Type 0} where
  -- `WsListener::handle_`, up to the session.
  unfoldable pub upgrade : Upgrades S N → Bytes → S → Io N (Accepted S)
  upgrade upgrades path socket = upgrades.read_request socket >>= λ target.
      fail_if (not (bytes_eq target path)) error_path
      >> (upgrades.async_accept socket >> pure (ws_session socket))

  -- The session is put into the queue; an exception is logged.
  abbrev pub after_upgrade :
      List (Accepted S) → N → Outcome (Accepted S × N) → List (Accepted S) × N
  after_upgrade sessions n (ok (session, n')) = (sessions ++ session ∷ [], n')
  after_upgrade sessions n (throw e) = (sessions, n)
  after_upgrade sessions n (bad_index i) = (sessions, n)
  after_upgrade sessions n (bad_address i) = (sessions, n)
  after_upgrade sessions n hang = (sessions, n)

  unfoldable pub ws_accepted :
      Upgrades S N → Bytes → S → List (Accepted S) → N → List (Accepted S) × N
  unfolding upgrade
  ws_accepted upgrades path socket sessions n =
      after_upgrade sessions n (upgrade upgrades path socket n)

-- `WsListener`: `handling` are the sockets whose `handle_` waits for the client.
pub record WsListener (S N : Type 0) : Type 0 where
  pub is_open : Bool
  pub handling : List S
  pub sessions : List (Accepted S)
  pub network : N

module _ {S N : Type 0} (upgrades : Upgrades S N) (path : Bytes) where
  -- `mainWork_` behind `async_accept`: a coroutine is spawned.
  abbrev pub ws_comes : S → WsListener S N → WsListener S N
  ws_comes socket listener = record listener { handling = socket ∷ listener.handling }

  -- `close`
  abbrev pub ws_close : WsListener S N → WsListener S N
  ws_close listener = record listener { is_open = false }

  -- A `handle_` goes to its end.
  unfoldable pub ws_handled : S → List S → WsListener S N → WsListener S N
  unfolding ws_accepted
  ws_handled socket others listener =
      let after = ws_accepted upgrades path socket listener.sessions listener.network in
      record listener { handling = others; sessions = after.0; network = after.1 }

  -- What the listener comes to: sockets come while it is open, and are handled in any order.
  pub data WsWork (start : WsListener S N) : WsListener S N → Type 0 where
    here : WsWork start start
    then_comes :
        {s t : WsListener S N}
        → WsWork start s
        → (socket : S) → s.is_open ≡ true
        → t ≡ ws_comes socket s
        → WsWork start t
    then_handled :
        {s t : WsListener S N}
        → WsWork start s
        → (before after : List S) (socket : S) → s.handling ≡ before ++ socket ∷ after
        → t ≡ ws_handled socket (before ++ after) s
        → WsWork start t
    then_closes : {s t : WsListener S N} → WsWork start s → t ≡ ws_close s → WsWork start t

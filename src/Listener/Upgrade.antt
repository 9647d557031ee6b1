-- ===== src/Listener/Upgrade.antt =====
-- How many requests a client of `WsListener` has to send.
use cppsong.Base.{
  sym, ap, ◌∙◌, [], ℕ, ◌≡◌, refl, subst, Bool, true, false, suc, ◌≤◌, not, List, Bytes, bytes_eq,
  ◌<◌, arith,
}
use cppsong.Base.Outcome.{Outcome, ok, throw, bad_index, bad_address, hang, error_path}
use cppsong.Connection.{fail_if}
use cppsong.Connection.Steps.{run-ok}
use cppsong.Listener.{
  Upgrades, Accepted, upgrade, after_upgrade, ws_accepted, WsListener, ws_handled, WsWork, here,
  then_comes, then_handled, then_closes,
}

fail_if-same :
    {N : Type 0} (bad : Bool) (n n' : N) → fail_if bad error_path n ≡ ok (tt, n') → n' ≡ n
fail_if-same true n n' e = cc
fail_if-same false n n' e = cc

-- Both calls take a request that the client has sent from the stream.
pub record TakesRequests {S N : Type 0} (upgrades : Upgrades S N) : Type 0 where
  pub requests : S → N → ℕ
  pub read_takes :
      (s : S) (n n' : N) (target : Bytes)
      → upgrades.read_request s n ≡ ok (target, n')
      → requests s n ≡ suc (requests s n')
  pub accept_takes :
      (s : S) (n n' : N)
      → upgrades.async_accept s n ≡ ok (tt, n')
      → requests s n ≡ suc (requests s n')

module _ {S N : Type 0} (upgrades : Upgrades S N) (takes : TakesRequests upgrades) where
  upgrade-requests :
      (path : Bytes) (socket : S) (n n' : N) (session : Accepted S)
      → upgrade upgrades path socket n ≡ ok (session, n')
      → 2 ≤ takes.requests socket n
  unfolding upgrade
  upgrade-requests path socket n n' session e =
      let (target, n1, read, e1) = run-ok (upgrades.read_request socket) _ n e in
      let (passed, n2, same, e2) =
        run-ok (fail_if (not (bytes_eq target path)) error_path) _ n1 e1 in
      let (done, n3, accepted, e3) = run-ok (upgrades.async_accept socket) _ n2 e2 in
      omega (
        arith,
        takes.read_takes socket n n1 target read,
        subst (λ m. takes.requests socket m ≡ suc (takes.requests socket n3))
            (fail_if-same _ n1 n2 same) (takes.accept_takes socket n2 n3 accepted),
      )

  after_upgrade-none :
      (sessions : List (Accepted S)) (n : N) (result : Outcome (Accepted S × N))
      → ((session : Accepted S) (n' : N) → result ≡ ok (session, n') → ⊥)
      → after_upgrade sessions n result ≡ (sessions, n)
  after_upgrade-none sessions n (ok (session, n')) never = absurd (never session n' refl)
  after_upgrade-none sessions n (throw x) never = refl
  after_upgrade-none sessions n (bad_index i) never = refl
  after_upgrade-none sessions n (bad_address i) never = refl
  after_upgrade-none sessions n hang never = refl

  ws_accepted-unchanged :
      (path : Bytes) (socket : S) (sessions : List (Accepted S)) (n : N)
      → takes.requests socket n < 2
      → ws_accepted upgrades path socket sessions n ≡ (sessions, n)
  unfolding ws_accepted
  ws_accepted-unchanged path socket sessions n few =
      after_upgrade-none sessions n (upgrade upgrades path socket n)
        λ session n' e. omega (arith, few, upgrade-requests path socket n n' session e)

  -- The listener has no session, on the network that it has started on.
  abbrev IsIdle : N → WsListener S N → Type 0
  IsIdle n listener = (listener.sessions ≡ []) × (listener.network ≡ n)

  WsWork-IsIdle :
      (path : Bytes) (start listener : WsListener S N) (n : N)
      → ((socket : S) → takes.requests socket n < 2)
      → IsIdle n start
      → WsWork upgrades path start listener
      → IsIdle n listener
  unfolding ws_handled
  WsWork-IsIdle path start listener n few idle here = idle
  WsWork-IsIdle path start listener n few idle (then_comes {s = s} run socket live same) =
      subst (IsIdle n) (sym same) (WsWork-IsIdle path start s n few idle run)
  WsWork-IsIdle path start listener n few idle
        (then_handled {s = s} run before after socket split same) =
      let (none_yet, at_n) = WsWork-IsIdle path start s n few idle run in
      let unchanged =
        ws_accepted-unchanged path socket s.sessions s.network
          (subst (λ m. takes.requests socket m < 2) (sym at_n) (few socket)) in
      subst (IsIdle n) (sym same)
        (ap (λ r. r.0) unchanged ∙ none_yet, ap (λ r. r.1) unchanged ∙ at_n)
  WsWork-IsIdle path start listener n few idle (then_closes {s = s} run same) =
      subst (IsIdle n) (sym same) (WsWork-IsIdle path start s n few idle run)

  -- Where every client sends less than two requests, `WsListener` never has a session, whatever
  -- sockets come and however their handlers are interleaved.
  pub WsWork-no_session :
      (path : Bytes) (start listener : WsListener S N)
      → ((socket : S) → takes.requests socket start.network < 2)
      → start.sessions ≡ []
      → WsWork upgrades path start listener
      → listener.sessions ≡ []
  WsWork-no_session path start listener few none_yet run =
      (WsWork-IsIdle path start listener start.network few (none_yet, refl) run).0

-- ===== src/Listener/Examples.antt =====
-- A client that sends one request; the network is the requests that are still to come.
use cppsong.Base.{ℕ, suc, ◌≡◌, refl, List, [], ◌∷◌, Bytes, bytes_eq, true, arith}
use cppsong.Base.Lists.{length}
use cppsong.Base.Outcome.{Outcome, ok, throw, end_of_stream}
use cppsong.Base.Text.{codes}
use cppsong.Listener.{
  Upgrades, WsListener, WsWork, here, then_comes, then_handled, upgrade, ws_accepted, ws_handled,
}
use cppsong.Listener.Upgrade.{TakesRequests, WsWork-no_session}

abbrev next_request : List Bytes → Outcome (Bytes × List Bytes)
next_request [] = throw end_of_stream
next_request (target ∷ rest) = ok (target, rest)

abbrev accept_next : List Bytes → Outcome (Unit {0} × List Bytes)
accept_next [] = throw end_of_stream
accept_next (target ∷ rest) = ok (tt, rest)

abbrev upgrades : Upgrades ℕ (List Bytes)
upgrades = record { read_request = λ s n. next_request n; async_accept = λ s n. accept_next n }

next_request-length :
    (n n' : List Bytes) (target : Bytes)
    → next_request n ≡ ok (target, n')
    → length n ≡ suc (length n')
next_request-length [] n' target e = cc
next_request-length (t ∷ rest) n' target e = let same : rest ≡ n' = cc in rw same refl

accept_next-length : (n n' : List Bytes) → accept_next n ≡ ok (tt, n') → length n ≡ suc (length n')
accept_next-length [] n' e = cc
accept_next-length (t ∷ rest) n' e = let same : rest ≡ n' = cc in rw same refl

unfoldable takes : TakesRequests upgrades
takes = record {
  requests = λ s n. length n;
  read_takes = λ s n n' target e. next_request-length n n' target e;
  accept_takes = λ s n n' e. accept_next-length n n' e;
}

abbrev one_request : List Bytes
one_request = codes "/" ∷ []

abbrev listener : WsListener ℕ (List Bytes)
listener = record { is_open = true; handling = []; sessions = []; network = one_request }

-- A socket comes, and is handled: the second request does not come.
handles_one : WsWork upgrades (codes "/") listener listener
unfolding ws_handled ws_accepted upgrade bytes_eq
handles_one = then_handled (then_comes here 5 refl refl) [] [] 5 refl refl

WsWork-no_session_example : listener.sessions ≡ []
unfolding takes
WsWork-no_session_example =
    WsWork-no_session upgrades takes (codes "/") listener listener (λ socket. omega arith) refl
      handles_one

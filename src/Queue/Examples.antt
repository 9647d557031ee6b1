-- ===== src/Queue/Examples.antt =====
-- Runs of src/utils/asyncqueue.hpp.
use cppsong.Base.{ℕ, ◌*◌, ◌≡◌, refl, List, [], ◌∷◌, some, none, map}
use cppsong.Base.Lists.{length}
use cppsong.Base.Outcome.{ok}
use cppsong.Queue.{
  empty_queue, put, put_to, get, get_from, new_waiter, complete, hand_over, gives, after_wait,
  taken, Call, put_call, get_call, run,
}
use cppsong.Queue.Fifo.{puts_of, gets_of, IsFifo, run-IsFifo}
use cppsong.Queue.Source.{
  Event, comes, session_called, close_called, started, items_of, session_calls, receive, work,
  work-IsFifo,
}

-- Two calls wait, three values come, and a third call finds the last of them.
abbrev calls : List (Call ℕ)
calls = get_call ∷ get_call ∷ put_call 5 ∷ put_call 6 ∷ put_call 7 ∷ get_call ∷ get_call ∷ []

queue_runs :
    map (gives (run calls empty_queue []).0.store) (run calls empty_queue []).1
    ≡ some (ok 5) ∷ some (ok 6) ∷ some (ok 7) ∷ none ∷ []
unfolding run empty_queue put put_to get get_from new_waiter complete hand_over gives after_wait
    taken
queue_runs = refl

run-IsFifo_example :
    (length (run calls empty_queue []).1 ≡ gets_of calls)
    × IsFifo (puts_of calls) (run calls empty_queue []).0 (run calls empty_queue []).1
run-IsFifo_example = run-IsFifo calls

-- Two items come, the source is closed, and a third item is lost; the first call waits at first,
-- and the third waits for ever.
abbrev events : List (Event ℕ)
events =
    session_called
    ∷ comes 5
    ∷ comes 6
    ∷ close_called
    ∷ comes 7
    ∷ session_called
    ∷ session_called
    ∷ []

abbrev ten_times : ℕ → ℕ
ten_times n = 10 * n

source_runs :
    map
      (gives (work ten_times events started []).0.sessions.store)
      (work ten_times events started []).1
    ≡ some (ok 50) ∷ some (ok 60) ∷ none ∷ []
unfolding work receive empty_queue put put_to get get_from new_waiter complete hand_over gives
    after_wait taken
source_runs = refl

work-IsFifo_example :
    (length (work ten_times events started []).1 ≡ session_calls events)
    × IsFifo
        (map ten_times (items_of events))
        (work ten_times events started []).0.sessions
        (work ten_times events started []).1
work-IsFifo_example = work-IsFifo ten_times events

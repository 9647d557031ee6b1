-- ===== src/Queue/Source.antt =====
-- What src/listeners/tcp.cpp and src/udp/udpclient.cpp make of the queue: a coroutine puts what comes
-- from a socket into it, made ready by `made`, until the socket is closed; calls of `session` take
-- it out.
use cppsong.Base.{
  ℕ, suc, ◌≡◌, refl, sym, subst, ap, ◌∙◌, Bool, true, false, List, [], ◌∷◌, ◌++◌, map,
  if◌then◌else◌,
}
use cppsong.Base.Lists.{length}
use cppsong.Queue.{AsyncQueue, empty_queue, Get, put, get, Call, put_call, get_call, run}
use cppsong.Queue.Fifo.{puts_of, gets_of, IsFifo, run-IsFifo}

pub data Event (A : Type 0) : Type 0 where
  comes : A → Event A
  session_called : Event A
  close_called : Event A

pub record Source (T : Type 0) : Type 0 where
  -- Between the start and `close`: on a closed socket the coroutine ends by an exception.
  pub is_open : Bool
  pub sessions : AsyncQueue T

-- `start`, up to the first wait of the coroutine.
abbrev pub started : {T : Type 0} → Source T
started = record { is_open = true; sessions = empty_queue }

abbrev pub close_source : {T : Type 0} → Source T → Source T
close_source source = record source { is_open = false }

module _ {A : Type 0} where
  -- The items that come before the first `close`.
  abbrev pub items_of : List (Event A) → List A
  items_of [] = []
  items_of (comes item ∷ events) = item ∷ items_of events
  items_of (session_called ∷ events) = items_of events
  items_of (close_called ∷ events) = []

  abbrev pub session_calls : List (Event A) → ℕ
  session_calls [] = 0
  session_calls (comes item ∷ events) = session_calls events
  session_calls (session_called ∷ events) = suc (session_calls events)
  session_calls (close_called ∷ events) = session_calls events

module _ {A T : Type 0} (made : A → T) where
  -- The coroutine behind its wait for what comes.
  unfoldable pub receive : A → Source T → Source T
  receive item source =
      if source.is_open
      then record source { sessions = put (made item) source.sessions }
      else source

  -- The source behind the events, and every call of `session` so far in their order.
  unfoldable pub work : List (Event A) → Source T → List (Get T) → Source T × List (Get T)
  unfolding receive
  work [] source gets = (source, gets)
  work (comes item ∷ events) source gets = work events (receive item source) gets
  work (session_called ∷ events) source gets =
      let taken = get source.sessions in
      work events (record source { sessions = taken.0 }) (gets ++ taken.1 ∷ [])
  work (close_called ∷ events) source gets = work events (close_source source) gets

  -- The calls of the queue's operations.
  abbrev calls_of : Bool → List (Event A) → List (Call T)
  calls_of is_open [] = []
  calls_of true (comes item ∷ events) = put_call (made item) ∷ calls_of true events
  calls_of false (comes item ∷ events) = calls_of false events
  calls_of is_open (session_called ∷ events) = get_call ∷ calls_of is_open events
  calls_of is_open (close_called ∷ events) = calls_of false events

  -- What `work` does to the queue.
  abbrev IsRun : List (Event A) → Bool → AsyncQueue T → List (Get T) → Type 0
  IsRun events is_open q gets =
      ((work events (record { is_open = is_open; sessions = q }) gets).0.sessions
        ≡ (run (calls_of is_open events) q gets).0)
      × ((work events (record { is_open = is_open; sessions = q }) gets).1
          ≡ (run (calls_of is_open events) q gets).1)

  work-IsRun :
      (events : List (Event A)) (is_open : Bool) (q : AsyncQueue T) (gets : List (Get T))
      → IsRun events is_open q gets
  unfolding work run receive
  work-IsRun [] is_open q gets = (refl, refl)
  work-IsRun (comes item ∷ events) true q gets = work-IsRun events true (put (made item) q) gets
  work-IsRun (comes item ∷ events) false q gets = work-IsRun events false q gets
  work-IsRun (session_called ∷ events) is_open q gets =
      work-IsRun events is_open (get q).0 (gets ++ (get q).1 ∷ [])
  work-IsRun (close_called ∷ events) is_open q gets = work-IsRun events false q gets

  gets_of-calls :
      (events : List (Event A)) (is_open : Bool)
      → gets_of (calls_of is_open events) ≡ session_calls events
  unfolding gets_of
  gets_of-calls [] is_open = refl
  gets_of-calls (comes item ∷ events) true = gets_of-calls events true
  gets_of-calls (comes item ∷ events) false = gets_of-calls events false
  gets_of-calls (session_called ∷ events) is_open = ap suc (gets_of-calls events is_open)
  gets_of-calls (close_called ∷ events) is_open = gets_of-calls events false

  puts_of-closed : (events : List (Event A)) → puts_of (calls_of false events) ≡ []
  unfolding puts_of
  puts_of-closed [] = refl
  puts_of-closed (comes item ∷ events) = puts_of-closed events
  puts_of-closed (session_called ∷ events) = puts_of-closed events
  puts_of-closed (close_called ∷ events) = puts_of-closed events

  puts_of-open :
      (events : List (Event A)) → puts_of (calls_of true events) ≡ map made (items_of events)
  unfolding puts_of
  puts_of-open [] = refl
  puts_of-open (comes item ∷ events) = ap (◌∷◌ (made item)) (puts_of-open events)
  puts_of-open (session_called ∷ events) = puts_of-open events
  puts_of-open (close_called ∷ events) = puts_of-closed events

  -- After any events, the n-th call of `session` has given what was made of the n-th item that
  -- came before `close`, if there is one, and waits otherwise; what was not yet asked for is in the
  -- queue, in order; and there is one waiter for each call that waits.
  pub work-IsFifo :
      (events : List (Event A))
      → (length (work events started []).1 ≡ session_calls events)
        × IsFifo
            (map made (items_of events))
            (work events started []).0.sessions
            (work events started []).1
  work-IsFifo events =
      let (queue, gets) = work-IsRun events true empty_queue [] in
      let (size, fifo) = run-IsFifo (calls_of true events) in
      (
        ap length gets ∙ size ∙ gets_of-calls events true,
        subst (λ puts. IsFifo puts (work events started []).0.sessions (work events started []).1)
            (puts_of-open events)
            (subst (λ q. IsFifo (puts_of (calls_of true events)) q (work events started []).1)
              (sym queue)
              (subst
                (λ g.
                  IsFifo (puts_of (calls_of true events))
                    (run (calls_of true events) empty_queue []).0 g)
                (sym gets) fifo)),
      )

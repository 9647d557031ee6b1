-- ===== src/Queue.antt =====
-- src/utils/asyncqueue.hpp: the queue between an inbound or a listener and the task that takes
-- from it. `get` is a coroutine: it returns a value at once, or waits until a `put` completes its
-- waiter. The waiters are shared pointers, here indices into a store.
pub mod Invariant
pub mod Steps
pub mod Fifo
pub mod Source
mod Examples
use cppsong.Base.{
  ℕ, zero, suc, Bool, true, false, List, [], ◌∷◌, ◌++◌, Option, none, some, if◌then◌else◌,
}
use cppsong.Base.Lists.{length, get_elem?}
use cppsong.Base.Outcome.{Outcome, ok, throw, bad_optional_access}

pub record GetWaiter (T : Type 0) : Type 0 where
  -- The wait on the timer, which no time ends, has been cancelled.
  pub timer_cancelled : Bool
  pub done : Bool
  pub value : Option T

pub record AsyncQueue (T : Type 0) : Type 0 where
  pub queue : List T
  pub get_waiters : List ℕ
  -- Every waiter ever made.
  pub store : List (GetWaiter T)

-- What a call of `get` has come to: it returned, or it waits on the timer of its waiter.
pub data Get (T : Type 0) : Type 0 where
  returned : T → Get T
  waits : ℕ → Get T

module _ {T : Type 0} where
  unfoldable pub empty_queue : AsyncQueue T
  empty_queue = record { queue = []; get_waiters = []; store = [] }

  pub new_waiter : GetWaiter T
  new_waiter = record { timer_cancelled = false; done = false; value = none }

  pub complete : GetWaiter T → GetWaiter T
  complete w = if w.done then w else record w { done = true; timer_cancelled = true }

  -- `waiter->value = value; waiter->complete();` on the waiter at an index.
  pub hand_over : ℕ → T → List (GetWaiter T) → List (GetWaiter T)
  unfolding complete
  hand_over i value [] = []
  hand_over zero value (w ∷ ws) = complete (record w { value = some value }) ∷ ws
  hand_over (suc i) value (w ∷ ws) = w ∷ hand_over i value ws

  pub put_to : List ℕ → T → AsyncQueue T → AsyncQueue T
  put_to (waiter ∷ waiters) value q = record q {
    get_waiters = waiters;
    store = hand_over waiter value q.store;
  }
  put_to [] value q = record q { queue = q.queue ++ value ∷ [] }

  unfoldable pub put : T → AsyncQueue T → AsyncQueue T
  put value q = put_to q.get_waiters value q

  -- `get` up to its return or to its wait.
  pub get_from : List T → AsyncQueue T → AsyncQueue T × Get T
  get_from (value ∷ values) q = (record q { queue = values }, returned value)
  get_from [] q = (
    record q {
      get_waiters = q.get_waiters ++ length q.store ∷ [];
      store = q.store ++ new_waiter ∷ [];
    },
    waits (length q.store),
  )

  unfoldable pub get : AsyncQueue T → AsyncQueue T × Get T
  get q = get_from q.queue q

  -- `(waiter->value).value()`
  pub taken : Option T → Outcome T
  taken (some value) = ok value
  taken none = throw bad_optional_access

  pub after_wait : Option (GetWaiter T) → Option (Outcome T)
  unfolding taken
  after_wait none = none
  after_wait (some w) = if w.timer_cancelled then some (taken w.value) else none

  -- What the coroutine of a call has given: none while its timer runs.
  unfoldable pub gives : List (GetWaiter T) → Get T → Option (Outcome T)
  unfolding after_wait
  gives store (returned value) = some (ok value)
  gives store (waits i) = after_wait (get_elem? store i)

-- The calls that the tasks make, in any order.
pub data Call (T : Type 0) : Type 0 where
  put_call : T → Call T
  get_call : Call T

module _ {T : Type 0} where
  -- The queue after the calls, and every `get` so far in the order of the calls.
  unfoldable pub run : List (Call T) → AsyncQueue T → List (Get T) → AsyncQueue T × List (Get T)
  run [] q gets = (q, gets)
  run (put_call value ∷ calls) q gets = run calls (put value q) gets
  run (get_call ∷ calls) q gets = run calls (get q).0 (gets ++ (get q).1 ∷ [])

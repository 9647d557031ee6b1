-- ===== src/Relay.antt =====
-- src/connections/relay.cpp: two coroutines copy between two connections, one each way, and `relay`
-- waits on a timer that the first of them to end cancels. Which coroutine goes on is the
-- scheduler's choice; a connection's input is all that will ever come.
pub mod Copy
pub mod Ending
mod Examples
use cppsong.Base.{ℕ, Bool, true, false, List, [], ◌∷◌, Bytes}
use cppsong.Base.Outcome.{Outcome, ok, throw, bad_index, bad_address, hang}
use cppsong.Connection.{Connection}

-- Where a `forward` stands: before its read, before its write, or behind its loop.
pub data Forward : Type 0 where
  reads : Forward
  writes : Bytes → Forward
  ended : Forward

-- Where `relay` stands: at its wait, or behind it, by the exception of a cancelled wait.
pub data Main : Type 0 where
  waiting : Main
  aborted : Main

pub record Relay (C D : Type 0) : Type 0 where
  pub conn1 : C
  pub conn2 : D
  pub there : Forward
  pub back : Forward
  pub timer_cancelled : Bool
  pub main : Main

-- What one step of a `forward` gives: the two connections, and where it stands then.
abbrev pub Moved : Type 0 → Type 0 → Type 0
Moved C D = C × D × Forward

module _ {C D : Type 0} where
  -- Behind `conn1->read(4096)`: an exception ends the loop, and so, in the model, does a step that
  -- is not defined.
  pub after_read : C → D → Outcome (Bytes × C) → Moved C D
  after_read c d (ok (received, c')) = (c', d, writes received)
  after_read c d (throw e) = (c, d, ended)
  after_read c d (bad_index i) = (c, d, ended)
  after_read c d (bad_address i) = (c, d, ended)
  after_read c d hang = (c, d, ended)

  -- Behind `conn2->write(data)`.
  pub after_write : C → D → Outcome (Unit {0} × D) → Moved C D
  after_write c d (ok (done, d')) = (c, d', reads)
  after_write c d (throw e) = (c, d, ended)
  after_write c d (bad_index i) = (c, d, ended)
  after_write c d (bad_address i) = (c, d, ended)
  after_write c d hang = (c, d, ended)

  -- A step of `forward(timer, from, to)`.
  unfoldable pub forward : Connection C → Connection D → C → D → Forward → Moved C D
  unfolding after_read after_write
  forward from to c d reads = after_read c d (from.read 4096 c)
  forward from to c d (writes received) = after_write c d (to.write received d)
  forward from to c d ended = (c, d, ended)

-- Behind its loop a `forward` cancels the timer.
abbrev pub cancels : Forward → Bool → Bool
cancels ended cancelled = true
cancels (writes received) cancelled = cancelled
cancels reads cancelled = cancelled

-- The coroutine that goes on.
pub data Turn : Type 0 where
  there_turn back_turn main_turn : Turn

module _ {C D : Type 0} (first : Connection C) (second : Connection D) where
  -- `relay` up to its wait.
  abbrev pub spawn_relay : C → D → Relay C D
  spawn_relay c d = record {
    conn1 = c;
    conn2 = d;
    there = reads;
    back = reads;
    timer_cancelled = false;
    main = waiting;
  }

  abbrev pub moved_there : Relay C D → Moved C D → Relay C D
  moved_there r (c, d, f) = record r {
    conn1 = c;
    conn2 = d;
    there = f;
    timer_cancelled = cancels f r.timer_cancelled;
  }

  abbrev pub moved_back : Relay C D → Moved D C → Relay C D
  moved_back r (d, c, f) = record r {
    conn1 = c;
    conn2 = d;
    back = f;
    timer_cancelled = cancels f r.timer_cancelled;
  }

  -- The wait ends when the timer is cancelled.
  abbrev pub resumed : Bool → Main → Main
  resumed true main = aborted
  resumed false main = main

  unfoldable pub step : Turn → Relay C D → Relay C D
  unfolding forward
  step there_turn r = moved_there r (forward first second r.conn1 r.conn2 r.there)
  step back_turn r = moved_back r (forward second first r.conn2 r.conn1 r.back)
  step main_turn r = record r { main = resumed r.timer_cancelled r.main }

  unfoldable pub run : List Turn → Relay C D → Relay C D
  unfolding step
  run [] r = r
  run (turn ∷ turns) r = run turns (step turn r)

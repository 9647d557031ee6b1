-- ===== src/Relay/Ending.antt =====
-- A schedule that lets both coroutines go on often enough sends everything on, both ways.
use cppsong.Base.{
  ℕ, ◌+◌, ◌-◌, ◌*◌, ◌<◌, ◌≤◌, ◌≡◌, refl, ap, inl, inr, List, [], ◌∷◌, ◌++◌, Bytes, arith,
}
use cppsong.Base.Lists.{length, length-append}
use cppsong.Connection.{Connection, IsStream}
use cppsong.Inbound.Http.Tunnel.{empty_or_more}
use cppsong.Relay.{
  Forward, reads, writes, ended, Relay, after_read, after_write, forward, Turn, there_turn,
  back_turn, main_turn, spawn_relay, step, run,
}
use cppsong.Relay.Copy.{Faithful, line-ended, run-Faithful, spawn_relay-Faithful}

-- The steps that a coroutine has left, at most.
abbrev pub steps_left : ℕ → Forward → ℕ
steps_left n reads = 2 * n + 1
steps_left n (writes received) = 2 * n + 2
steps_left n ended = 0

ended-steps_left : (n : ℕ) (f : Forward) → steps_left n f ≡ 0 → f ≡ ended
ended-steps_left n reads e = absurd (omega (arith, e))
ended-steps_left n (writes received) e = absurd (omega (arith, e))
ended-steps_left n ended e = refl

module _ {C D : Type 0} (from : Connection C) (to : Connection D) (source : IsStream from)
    (sink : IsStream to) where
  abbrev left : C → Forward → ℕ
  left c f = steps_left (length (source.input c)) f

  forward-left :
      (c : C) (d : D) (f : Forward)
      → let (c', d', f') = forward from to c d f in
        (left c' f' ≤ left c f - 1) × (sink.input d' ≡ sink.input d)
  unfolding forward after_read after_write
  forward-left c d reads = elim (empty_or_more (source.input c)) [
    | inl empty ↦ rw (source.read_end c 4096 (omega arith) empty) (omega arith, refl)
    | inr more ↦
        let (got, rest, c', go, split, nonempty, input, sent) =
          source.read_some c 4096 (omega arith) more in
        rw go
          (omega (arith, ap length split, length-append got rest, nonempty, ap length input), refl)
  ]
  forward-left c d (writes received) =
      let (d', go, input, sent) = sink.write_sent d received in rw go (omega arith, input)
  forward-left c d ended = (omega arith, refl)

-- How often each of the two goes on.
abbrev pub there_turns : List Turn → ℕ
there_turns [] = 0
there_turns (there_turn ∷ turns) = there_turns turns + 1
there_turns (back_turn ∷ turns) = there_turns turns
there_turns (main_turn ∷ turns) = there_turns turns

abbrev pub back_turns : List Turn → ℕ
back_turns [] = 0
back_turns (there_turn ∷ turns) = back_turns turns
back_turns (back_turn ∷ turns) = back_turns turns + 1
back_turns (main_turn ∷ turns) = back_turns turns

module _ {C D : Type 0} (first : Connection C) (second : Connection D) (stream1 : IsStream first)
    (stream2 : IsStream second) where
  abbrev there_left : Relay C D → ℕ
  there_left r = steps_left (length (stream1.input r.conn1)) r.there

  abbrev back_left : Relay C D → ℕ
  back_left r = steps_left (length (stream2.input r.conn2)) r.back

  run-left :
      (turns : List Turn) (r : Relay C D)
      → let r' = run first second turns r in
        (there_left r' ≤ there_left r - there_turns turns)
        × (back_left r' ≤ back_left r - back_turns turns)
  unfolding run step
  run-left [] r = (omega arith, omega arith)
  run-left (there_turn ∷ turns) r =
      let (less, same) = forward-left first second stream1 stream2 r.conn1 r.conn2 r.there in
      let (there, back) = run-left turns (step first second there_turn r) in
      (
        omega (arith, less, there),
        omega (arith, back, ap (λ (t : Bytes). steps_left (length t) r.back) same),
      )
  run-left (back_turn ∷ turns) r =
      let (less, same) = forward-left second first stream2 stream1 r.conn2 r.conn1 r.back in
      let (there, back) = run-left turns (step first second back_turn r) in
      (
        omega (arith, there, ap (λ (t : Bytes). steps_left (length t) r.there) same),
        omega (arith, less, back),
      )
  run-left (main_turn ∷ turns) r = run-left turns (step first second main_turn r)

  -- Between two connections that work, a schedule in which each coroutine goes on more than twice as
  -- often as there are bytes for it to come has sent all of them on, both ways.
  pub run-delivers :
      (c : C) (d : D) (turns : List Turn)
      → 2 * length (stream1.input c) < there_turns turns
      → 2 * length (stream2.input d) < back_turns turns
      → (stream2.sent (run first second turns (spawn_relay first second c d)).conn2
          ≡ stream2.sent d ++ stream1.input c)
        × (stream1.sent (run first second turns (spawn_relay first second c d)).conn1
            ≡ stream1.sent c ++ stream2.input d)
  run-delivers c d turns enough_there enough_back =
      let r : Relay C D = run first second turns (spawn_relay first second c d) in
      let h : Faithful first second stream1 stream2 c d r =
        run-Faithful first second stream1 stream2 c d turns (spawn_relay first second c d)
          (spawn_relay-Faithful first second stream1 stream2 c d) in
      let (there, back) = run-left turns (spawn_relay first second c d) in
      let there_done : r.there ≡ ended =
        ended-steps_left (length (stream1.input r.conn1)) r.there
          (omega (arith, there, enough_there)) in
      let back_done : r.back ≡ ended =
        ended-steps_left (length (stream2.input r.conn2)) r.back
          (omega (arith, back, enough_back)) in
      (
        line-ended first second stream1 stream2 r.conn1 r.conn2 r.there _ there_done
            (h.there_ends there_done) h.there_line,
        line-ended second first stream2 stream1 r.conn2 r.conn1 r.back _ back_done
            (h.back_ends back_done) h.back_line,
      )

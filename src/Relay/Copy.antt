-- ===== src/Relay/Copy.antt =====
-- Whatever the schedule: what was sent on, what is in a coroutine's hands and what is still to come
-- are together what there was to send, in order.
use cppsong.Base.{
  ◌≡◌, refl, sym, ap, ap₂, ◌∙◌, Bool, true, false, ◌⊎◌, inl, inr, List, [], ◌∷◌, ◌++◌, append_assoc,
  append-nil, Bytes, arith,
}
use cppsong.Connection.{Connection, IsStream}
use cppsong.Inbound.Http.Tunnel.{empty_or_more}
use cppsong.Relay.{
  Forward, reads, writes, ended, Main, waiting, aborted, Relay, Moved, after_read, after_write,
  forward, cancels, resumed, Turn, there_turn, back_turn, main_turn, spawn_relay, step, run,
}

abbrev pub held : Forward → Bytes
held reads = []
held (writes received) = received
held ended = []

swap : {A B : Type 0} → A ⊎ B → B ⊎ A
swap (inl a) = inr a
swap (inr b) = inl b

module _ {C D : Type 0} (from : Connection C) (to : Connection D) (source : IsStream from)
    (sink : IsStream to) where
  -- What one direction still has to do, in order: sent, held, to come.
  abbrev pub line : C → D → Forward → Bytes
  line c d f = sink.sent d ++ (held f ++ source.input c)

  -- One step keeps the line, touches nothing else of the connections, and ends only at the end.
  abbrev Keeps : C → D → Forward → Moved C D → Type 0
  Keeps c d f (c', d', f') =
      (line c' d' f' ≡ line c d f)
      × (source.sent c' ≡ source.sent c)
      × (sink.input d' ≡ sink.input d)
      × ((f' ≡ ended) → source.input c' ≡ [])

  forward-ended : (c : C) (d : D) (f : Forward) → (f ≡ ended) → (forward from to c d f).2 ≡ ended
  unfolding forward
  forward-ended c d ended e = refl
  forward-ended c d reads e = cc
  forward-ended c d (writes received) e = cc

  pub line-ended :
      (c : C) (d : D) (f : Forward) (x : Bytes)
      → f ≡ ended
      → source.input c ≡ []
      → line c d f ≡ x
      → sink.sent d ≡ x
  line-ended c d f x e empty same =
      sym (append-nil (sink.sent d))
      ∙ ap (λ (t : Bytes). sink.sent d ++ t)
          (ap₂ (λ (h i : Bytes). h ++ i) (sym (ap held e)) (sym empty))
      ∙ same

  forward-Keeps :
      (c : C) (d : D) (f : Forward)
      → ((f ≡ ended) → source.input c ≡ [])
      → Keeps c d f (forward from to c d f)
  unfolding forward after_read after_write
  forward-Keeps c d reads at_end = elim (empty_or_more (source.input c)) [
    | inl empty ↦ rw (source.read_end c 4096 (omega arith) empty) (refl, refl, refl, λ e. empty)
    | inr more ↦
        let (got, rest, c', go, split, nonempty, input, sent) =
          source.read_some c 4096 (omega arith) more in
        rw go (
          ap (λ (t : Bytes). sink.sent d ++ t) (ap (λ (t : Bytes). got ++ t) input ∙ sym split),
          sent,
          refl,
          λ e. cc,
        )
  ]
  forward-Keeps c d (writes received) at_end =
      let (d', go, input, sent) = sink.write_sent d received in
      rw go (
        ap (λ (t : Bytes). t ++ source.input c) sent
            ∙ append_assoc (sink.sent d) received (source.input c),
        refl,
        input,
        λ e. cc,
      )
  forward-Keeps c d ended at_end = (refl, refl, refl, at_end)

module _ {C D : Type 0} (first : Connection C) (second : Connection D) (stream1 : IsStream first)
    (stream2 : IsStream second) where
  -- What holds in every state of a relay that began with `c0` and `d0`.
  pub record Faithful (c0 : C) (d0 : D) (r : Relay C D) : Type 0 where
    pub there_line :
        line first second stream1 stream2 r.conn1 r.conn2 r.there
        ≡ stream2.sent d0 ++ stream1.input c0
    pub back_line :
        line second first stream2 stream1 r.conn2 r.conn1 r.back
        ≡ stream1.sent c0 ++ stream2.input d0
    pub there_ends : (r.there ≡ ended) → stream1.input r.conn1 ≡ []
    pub back_ends : (r.back ≡ ended) → stream2.input r.conn2 ≡ []
    pub cancelled_by : (r.timer_cancelled ≡ true) → (r.there ≡ ended) ⊎ (r.back ≡ ended)
    pub aborted_by : (r.main ≡ aborted) → r.timer_cancelled ≡ true

  pub spawn_relay-Faithful : (c : C) (d : D) → Faithful c d (spawn_relay first second c d)
  spawn_relay-Faithful c d = record {
    there_line = refl;
    back_line = refl;
    there_ends = λ e. cc;
    back_ends = λ e. cc;
    cancelled_by = λ e. cc;
    aborted_by = λ e. cc;
  }

  cancels-by :
      (f : Forward) (b : Bool) (P : Type 0)
      → ((b ≡ true) → P)
      → (cancels f b ≡ true)
      → (f ≡ ended) ⊎ P
  cancels-by ended b P h e = inl refl
  cancels-by reads b P h e = inr (h e)
  cancels-by (writes received) b P h e = inr (h e)

  cancels-stays : (f : Forward) (b : Bool) → b ≡ true → cancels f b ≡ true
  cancels-stays ended b e = refl
  cancels-stays reads b e = e
  cancels-stays (writes received) b e = e

  -- Who has ended, after a step of one of the two.
  ends-now :
      (f f' other : Forward) (b : Bool)
      → ((f ≡ ended) → f' ≡ ended)
      → ((b ≡ true) → (f ≡ ended) ⊎ (other ≡ ended))
      → (cancels f' b ≡ true)
      → (f' ≡ ended) ⊎ (other ≡ ended)
  ends-now f f' other b stays before e = elim (cancels-by f' b _ before e) [
    | inl now ↦ inl now
    | inr (inl was) ↦ inl (stays was)
    | inr (inr other_was) ↦ inr other_was
  ]

  resumed-by :
      (b : Bool) (main : Main)
      → ((main ≡ aborted) → b ≡ true)
      → (resumed first second b main ≡ aborted)
      → b ≡ true
  resumed-by true main before e = refl
  resumed-by false main before e = before e

  step-Faithful :
      (c0 : C) (d0 : D) (turn : Turn) (r : Relay C D)
      → Faithful c0 d0 r
      → Faithful c0 d0 (step first second turn r)
  unfolding step
  step-Faithful c0 d0 there_turn r h =
      let (c, d, f) = forward first second r.conn1 r.conn2 r.there in
      let (kept, sent, input, at_end) =
        forward-Keeps first second stream1 stream2 r.conn1 r.conn2 r.there h.there_ends in
      record {
        there_line = kept ∙ h.there_line;
        back_line = ap₂ (λ (x y : Bytes). x ++ (held r.back ++ y)) sent input ∙ h.back_line;
        there_ends = at_end;
        back_ends = λ e. input ∙ h.back_ends e;
        cancelled_by =
            ends-now r.there f r.back r.timer_cancelled
              (forward-ended first second stream1 stream2 r.conn1 r.conn2 r.there) h.cancelled_by;
        aborted_by = λ e. cancels-stays f r.timer_cancelled (h.aborted_by e);
      }
  step-Faithful c0 d0 back_turn r h =
      let (d, c, f) = forward second first r.conn2 r.conn1 r.back in
      let (kept, sent, input, at_end) =
        forward-Keeps second first stream2 stream1 r.conn2 r.conn1 r.back h.back_ends in
      record {
        there_line = ap₂ (λ (x y : Bytes). x ++ (held r.there ++ y)) sent input ∙ h.there_line;
        back_line = kept ∙ h.back_line;
        there_ends = λ e. input ∙ h.there_ends e;
        back_ends = at_end;
        cancelled_by = λ e. swap (
            ends-now r.back f r.there r.timer_cancelled
              (forward-ended second first stream2 stream1 r.conn2 r.conn1 r.back)
              (λ b. swap (h.cancelled_by b)) e);
        aborted_by = λ e. cancels-stays f r.timer_cancelled (h.aborted_by e);
      }
  step-Faithful c0 d0 main_turn r h = record {
    there_line = h.there_line;
    back_line = h.back_line;
    there_ends = h.there_ends;
    back_ends = h.back_ends;
    cancelled_by = h.cancelled_by;
    aborted_by = resumed-by r.timer_cancelled r.main h.aborted_by;
  }

  pub run-Faithful :
      (c0 : C) (d0 : D) (turns : List Turn) (r : Relay C D)
      → Faithful c0 d0 r
      → Faithful c0 d0 (run first second turns r)
  unfolding run
  run-Faithful c0 d0 [] r h = h
  run-Faithful c0 d0 (turn ∷ turns) r h =
      run-Faithful c0 d0 turns (step first second turn r) (step-Faithful c0 d0 turn r h)

  -- What was sent on, what a coroutine holds, and what is still to come are together, each way, what
  -- there was to send; and `relay` waits, or one of the two ways has been sent on to its end.
  abbrev pub Copies : C → D → Relay C D → Type 0
  Copies c d r =
      (line first second stream1 stream2 r.conn1 r.conn2 r.there
        ≡ stream2.sent d ++ stream1.input c)
      × (line second first stream2 stream1 r.conn2 r.conn1 r.back
          ≡ stream1.sent c ++ stream2.input d)
      × ((r.main ≡ waiting)
          ⊎ ((stream2.sent r.conn2 ≡ stream2.sent d ++ stream1.input c)
              ⊎ (stream1.sent r.conn1 ≡ stream1.sent c ++ stream2.input d)))

  Faithful-Copies : (c : C) (d : D) (r : Relay C D) → Faithful c d r → Copies c d r
  Faithful-Copies c d r h = (h.there_line, h.back_line, by_main r.main refl)
    where
      by_main :
          (m : Main)
          → r.main ≡ m
          → (r.main ≡ waiting)
            ⊎ ((stream2.sent r.conn2 ≡ stream2.sent d ++ stream1.input c)
                ⊎ (stream1.sent r.conn1 ≡ stream1.sent c ++ stream2.input d))
      by_main waiting e = inl e
      by_main aborted e = elim (h.cancelled_by (h.aborted_by e)) [
        | inl f ↦ inr (
            inl (
              line-ended first second stream1 stream2 r.conn1 r.conn2 r.there _ f (h.there_ends f)
                h.there_line))
        | inr f ↦ inr (
            inr (
              line-ended second first stream2 stream1 r.conn2 r.conn1 r.back _ f (h.back_ends f)
                h.back_line))
      ]

  -- Between two connections that work, and under every schedule of the coroutines, what was sent
  -- on, what a coroutine holds, and what is still to come are together, each way, what there was to
  -- send, in order; and when `relay` has come behind its wait, one of the two ways has been sent on
  -- to its end.
  pub run-Copies :
      (c : C) (d : D) (turns : List Turn)
      → Copies c d (run first second turns (spawn_relay first second c d))
  run-Copies c d turns =
      Faithful-Copies c d (run first second turns (spawn_relay first second c d))
        (run-Faithful c d turns (spawn_relay first second c d) (spawn_relay-Faithful c d))

-- ===== src/Queue/Steps.antt =====
-- `get` and `put` keep the invariant of the queue.
use cppsong.Base.{
  ℕ, suc, ◌+◌, ◌≡◌, refl, sym, ap, ap₂, ◌∙◌, List, [], ◌∷◌, ◌++◌, append_assoc, append-nil, Option,
  some, inl, inr, arith,
}
use cppsong.Base.Lists.{length, replicate, length-append, length-replicate, get_elem?-append}
use cppsong.Base.Outcome.{Outcome}
use cppsong.Queue.{
  GetWaiter, AsyncQueue, Get, returned, waits, new_waiter, complete, hand_over, put_to, put,
  get_from, get, after_wait, gives, taken,
}
use cppsong.Queue.Invariant.{
  map-append, count_from, count_from-snoc, count_from-suc, count_from-nil, waiting, given, Fifo,
  map-gives-append, waiting-snoc, replicate-snoc, hand_over-append,
}

module _ {T : Type 0} where
  -- A value in the queue is given at once.
  pub get_value-Fifo :
      {puts : List T} {q : AsyncQueue T} {gets : List (Get T)} (v : T) (vs : List T)
      → Fifo puts q gets
      → q.queue ≡ v ∷ vs
      → Fifo puts (get_from (v ∷ vs) q).0 (gets ++ returned v ∷ [])
  unfolding get_from given gives waiting count_from
  get_value-Fifo {q = q} v vs f e =
      let none_waits : f.pending ≡ 0 = elim f.one_empty [
        | inl z ↦ z
        | inr n ↦ absurd (cc (e, n))
      ] in
      record {
        served = f.served ++ returned v ∷ [];
        passed = f.passed ++ v ∷ [];
        settled = f.settled;
        pending = 0;
        gets_split =
            ap (λ (g : List (Get T)). g ++ returned v ∷ [])
              (f.gets_split
                ∙ ap (λ (k : ℕ). f.served ++ waiting (length f.settled) k) none_waits
                ∙ append-nil f.served)
            ∙ sym (append-nil (f.served ++ returned v ∷ []));
        waiters_are = f.waiters_are ∙ ap (count_from (length f.settled)) none_waits;
        store_is = f.store_is ∙ ap (λ (k : ℕ). f.settled ++ replicate k new_waiter) none_waits;
        served_give =
            map-append (gives f.settled) f.served (returned v ∷ [])
            ∙ ap (λ (r : List (Option (Outcome T))). r ++ given v ∷ []) f.served_give
            ∙ sym (map-append given f.passed (v ∷ []));
        puts_split = f.puts_split ∙ ap (◌++◌ f.passed) e ∙ sym (append_assoc f.passed (v ∷ []) vs);
        one_empty = inl refl;
      }

  -- Without one, a waiter is made.
  pub get_wait-Fifo :
      {puts : List T} {q : AsyncQueue T} {gets : List (Get T)}
      → Fifo puts q gets
      → q.queue ≡ []
      → Fifo puts (get_from [] q).0 (gets ++ waits (length q.store) ∷ [])
  unfolding get_from
  get_wait-Fifo {q = q} f e =
      let n = length f.settled in
      let size : length q.store ≡ n + f.pending = omega (
        arith,
        ap length f.store_is,
        length-append f.settled (replicate f.pending new_waiter),
        length-replicate f.pending new_waiter,
      ) in
      record {
        served = f.served;
        passed = f.passed;
        settled = f.settled;
        pending = suc f.pending;
        gets_split =
            ap (λ (g : List (Get T)). g ++ waits (length q.store) ∷ []) f.gets_split
            ∙ append_assoc f.served (waiting n f.pending) (waits (length q.store) ∷ [])
            ∙ ap (◌++◌ f.served) (sym (waiting-snoc n f.pending (length q.store) size));
        waiters_are =
            ap (λ (w : List ℕ). w ++ length q.store ∷ []) f.waiters_are
            ∙ sym (count_from-snoc n f.pending (length q.store) size);
        store_is =
            ap (λ (w : List (GetWaiter T)). w ++ new_waiter ∷ []) f.store_is
            ∙ append_assoc f.settled (replicate f.pending new_waiter) (new_waiter ∷ [])
            ∙ ap (◌++◌ f.settled) (sym (replicate-snoc f.pending new_waiter));
        served_give = f.served_give;
        puts_split = f.puts_split;
        one_empty = inr e;
      }

  pub get-Fifo :
      {puts : List T} {q : AsyncQueue T} {gets : List (Get T)}
      → Fifo puts q gets
      → Fifo puts (get q).0 (gets ++ (get q).1 ∷ [])
  unfolding get get_from
  get-Fifo {puts} {q} {gets} f = by_queue q.queue refl
    where
      by_queue :
          (values : List T)
          → q.queue ≡ values
          → Fifo puts (get_from values q).0 (gets ++ (get_from values q).1 ∷ [])
      by_queue [] e = get_wait-Fifo f e
      by_queue (v ∷ vs) e = get_value-Fifo v vs f e

  -- A value put while a call waits goes to the first that waits.
  pub put_waiter-Fifo :
      {puts : List T} {q : AsyncQueue T} {gets : List (Get T)} (v : T) (w : ℕ) (ws : List ℕ)
      → (f : Fifo puts q gets) → count_from (length f.settled) f.pending ≡ w ∷ ws
      → Fifo (puts ++ v ∷ []) (put_to (w ∷ ws) v q) gets
  unfolding put_to complete given gives after_wait taken waiting new_waiter
  put_waiter-Fifo {q = q} v w ws f e =
      let n = length f.settled in
      let (k, some_wait, first, others) = count_from-suc n f.pending w ws e in
      let no_value : q.queue ≡ [] = elim f.one_empty [
        | inl z ↦ absurd (cc (z, some_wait))
        | inr z ↦ z
      ] in
      let woken = complete (record new_waiter { value = some v }) in
      let size : n + 1 ≡ length (f.settled ++ woken ∷ []) =
        omega (arith, length-append f.settled (woken ∷ [])) in
      record {
        served = f.served ++ waits n ∷ [];
        passed = f.passed ++ v ∷ [];
        settled = f.settled ++ woken ∷ [];
        pending = k;
        gets_split =
            f.gets_split
            ∙ ap (λ (p : ℕ). f.served ++ waiting n p) some_wait
            ∙ sym (append_assoc f.served (waits n ∷ []) (waiting (n + 1) k))
            ∙ ap (λ (m : ℕ). (f.served ++ waits n ∷ []) ++ waiting m k) size;
        waiters_are = others ∙ ap (λ (m : ℕ). count_from m k) size;
        store_is =
            ap₂ (λ (i : ℕ) (s : List (GetWaiter T)). hand_over i v s) first
              (f.store_is ∙ ap (λ (p : ℕ). f.settled ++ replicate p new_waiter) some_wait)
            ∙ hand_over-append f.settled (replicate k new_waiter) v new_waiter
            ∙ sym (append_assoc f.settled (woken ∷ []) (replicate k new_waiter));
        served_give =
            map-append (gives (f.settled ++ woken ∷ [])) f.served (waits n ∷ [])
            ∙ ap₂ ◌++◌ (map-gives-append f.settled (woken ∷ []) f.served f.passed f.served_give) (
                ap (λ (o : Option (GetWaiter T)). after_wait o ∷ [])
                  (get_elem?-append f.settled [] woken))
            ∙ sym (map-append given f.passed (v ∷ []));
        puts_split =
            ap (λ (p : List T). p ++ v ∷ [])
              (f.puts_split ∙ ap (◌++◌ f.passed) no_value ∙ append-nil f.passed)
            ∙ sym (append-nil (f.passed ++ v ∷ []))
            ∙ ap (◌++◌ (f.passed ++ v ∷ [])) (sym no_value);
        one_empty = inr no_value;
      }

  pub put-Fifo :
      {puts : List T} {q : AsyncQueue T} {gets : List (Get T)} (v : T)
      → Fifo puts q gets
      → Fifo (puts ++ v ∷ []) (put v q) gets
  unfolding put put_to
  put-Fifo {puts} {q} {gets} v f = by_waiters q.get_waiters refl
    where
      by_waiters :
          (waiters : List ℕ)
          → q.get_waiters ≡ waiters
          → Fifo (puts ++ v ∷ []) (put_to waiters v q) gets
      by_waiters [] e =
          let none_waits = count_from-nil (length f.settled) f.pending (sym f.waiters_are ∙ e) in
          record {
            served = f.served;
            passed = f.passed;
            settled = f.settled;
            pending = f.pending;
            gets_split = f.gets_split;
            waiters_are = f.waiters_are;
            store_is = f.store_is;
            served_give = f.served_give;
            puts_split =
                ap (λ (p : List T). p ++ v ∷ []) f.puts_split
                ∙ append_assoc f.passed q.queue (v ∷ []);
            one_empty = inl none_waits;
          }
      by_waiters (w ∷ ws) e = put_waiter-Fifo v w ws f (sym f.waiters_are ∙ e)

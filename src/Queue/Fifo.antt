-- ===== src/Queue/Fifo.antt =====
-- The queue hands values to its readers in order: the n-th `get` gives the n-th value put.
use cppsong.Base.{
  ℕ, zero, suc, ◌+◌, ◌-◌, ◌≡◌, refl, sym, ap, ap₂, ◌∙◌, List, [], ◌∷◌, ◌++◌, append_assoc,
  append-nil, none, map, inl, inr, ◌⊎◌, arith, subst,
}
use cppsong.Base.Lists.{length, take, drop, replicate, length-append, get_elem?-append}
use cppsong.Queue.{
  GetWaiter, AsyncQueue, empty_queue, Get, new_waiter, put, get, after_wait, gives, Call, put_call,
  get_call, run,
}
use cppsong.Queue.Invariant.{
  map-append, count_from, waiting, given, Fifo, map-gives-append, empty-Fifo,
}
use cppsong.Queue.Steps.{get-Fifo, put-Fifo}

length-map : {A B : Type 0} (f : A → B) (xs : List A) → length (map f xs) ≡ length xs
length-map f [] = refl
length-map f (x ∷ xs) = ap suc (length-map f xs)

length-waiting : (T : Type 0) (i k : ℕ) → length (waiting {T = T} i k) ≡ k
unfolding waiting
length-waiting T i zero = refl
length-waiting T i (suc k) = ap suc (length-waiting T (i + 1) k)

length-count_from : (i k : ℕ) → length (count_from i k) ≡ k
unfolding count_from
length-count_from i zero = refl
length-count_from i (suc k) = ap suc (length-count_from (i + 1) k)

-- The first `n` of the values, when they are those passed on and `k` more are asked for.
take-passed :
    {T : Type 0} (passed rest : List T) (k n : ℕ)
    → (k ≡ 0) ⊎ (rest ≡ [])
    → n ≡ length passed + k
    → (take n (passed ++ rest) ≡ passed)
      × (drop n (passed ++ rest) ≡ rest)
      × (n - length (passed ++ rest) ≡ k)
take-passed [] rest k zero one e = (refl, refl, omega (arith, e))
take-passed [] [] k (suc n) one e = (refl, refl, omega (arith, e))
take-passed [] (x ∷ rest) k (suc n) one e =
    absurd (elim one [ inl z ↦ omega (arith, z, e) | inr z ↦ cc z ])
take-passed (x ∷ passed) rest k zero one e = absurd (omega (arith, e))
take-passed (x ∷ passed) rest k (suc n) one e =
    let (first, left, more) = take-passed passed rest k n one (omega (arith, e)) in
    (ap (◌∷◌ x) first, left, omega (arith, more))

module _ {T : Type 0} where
  unfoldable pub puts_of : List (Call T) → List T
  puts_of [] = []
  puts_of (put_call value ∷ calls) = value ∷ puts_of calls
  puts_of (get_call ∷ calls) = puts_of calls

  unfoldable pub gets_of : List (Call T) → ℕ
  gets_of [] = 0
  gets_of (put_call value ∷ calls) = gets_of calls
  gets_of (get_call ∷ calls) = suc (gets_of calls)

  run-Fifo :
      (calls : List (Call T)) {puts : List T} {q : AsyncQueue T} {gets : List (Get T)}
      → Fifo puts q gets
      → Fifo (puts ++ puts_of calls) (run calls q gets).0 (run calls q gets).1
  unfolding run puts_of
  run-Fifo [] {puts} {q} {gets} f = subst (λ p. Fifo p q gets) (sym (append-nil puts)) f
  run-Fifo (put_call v ∷ calls) {puts} {q} {gets} f =
      subst (λ p. Fifo p (run calls (put v q) gets).0 (run calls (put v q) gets).1)
        (append_assoc puts (v ∷ []) (puts_of calls)) (run-Fifo calls (put-Fifo v f))
  run-Fifo (get_call ∷ calls) f = run-Fifo calls (get-Fifo f)

  length-run :
      (calls : List (Call T)) (q : AsyncQueue T) (gets : List (Get T))
      → length (run calls q gets).1 ≡ length gets + gets_of calls
  unfolding run gets_of
  length-run [] q gets = omega arith
  length-run (put_call v ∷ calls) q gets = length-run calls (put v q) gets
  length-run (get_call ∷ calls) q gets = omega (
    arith,
    length-run calls (get q).0 (gets ++ (get q).1 ∷ []),
    length-append gets ((get q).1 ∷ []),
  )

  -- A call that waits has given nothing.
  map-gives-waiting :
      (settled : List (GetWaiter T)) (k : ℕ)
      → map (gives (settled ++ replicate k new_waiter)) (waiting (length settled) k)
        ≡ replicate k none
  unfolding waiting gives after_wait new_waiter
  map-gives-waiting settled zero = refl
  map-gives-waiting settled (suc k) =
      let split = append_assoc settled (new_waiter ∷ []) (replicate k new_waiter) in
      let next = map-gives-waiting (settled ++ new_waiter ∷ []) k in
      ap₂ ◌∷◌ (ap after_wait (get_elem?-append settled (replicate k new_waiter) new_waiter)) (
        ap₂ (λ (s : List (GetWaiter T)) (i : ℕ). map (gives s) (waiting i k)) (sym split)
          (sym (length-append settled (new_waiter ∷ [])))
        ∙ next)

  -- What the calls of `get` have given, and what is left, in terms of the values put alone.
  abbrev pub IsFifo : List T → AsyncQueue T → List (Get T) → Type 0
  IsFifo puts q gets =
      (map (gives q.store) gets
        ≡ map given (take (length gets) puts) ++ replicate (length gets - length puts) none)
      × (q.queue ≡ drop (length gets) puts)
      × (length q.get_waiters ≡ length gets - length puts)

  Fifo-IsFifo :
      (puts : List T) (q : AsyncQueue T) (gets : List (Get T))
      → Fifo puts q gets
      → IsFifo puts q gets
  Fifo-IsFifo puts q gets f =
      let n = length f.settled in
      let served : length f.served ≡ length f.passed = omega (
        arith,
        length-map (gives f.settled) f.served,
        length-map given f.passed,
        ap length f.served_give,
      ) in
      let size : length gets ≡ length f.passed + f.pending = omega (
        arith,
        ap length f.gets_split,
        length-append f.served (waiting n f.pending),
        length-waiting T n f.pending,
      ) in
      let (first, left, more) =
        take-passed f.passed q.queue f.pending (length gets) f.one_empty size in
      (
        ap₂ (λ (s : List (GetWaiter T)) (g : List (Get T)). map (gives s) g) f.store_is f.gets_split
            ∙ map-append (gives (f.settled ++ replicate f.pending new_waiter)) f.served
                (waiting n f.pending)
            ∙ ap₂ ◌++◌
                (map-gives-append f.settled (replicate f.pending new_waiter) f.served f.passed
                  f.served_give)
                (map-gives-waiting f.settled f.pending)
            ∙ sym (rw (f.puts_split, first, more) refl),
        rw (f.puts_split, left) refl,
        rw (f.puts_split, more) (ap length f.waiters_are ∙ length-count_from n f.pending),
      )

  -- After any calls on an empty queue, the n-th call of `get` has given the n-th value put, if
  -- there is one, and waits otherwise; the values not yet asked for are in the queue, in order; and
  -- there is one waiter for each call that waits.
  pub run-IsFifo :
      (calls : List (Call T))
      → (length (run calls empty_queue []).1 ≡ gets_of calls)
        × IsFifo (puts_of calls) (run calls empty_queue []).0 (run calls empty_queue []).1
  run-IsFifo calls = (
    omega (arith, length-run calls empty_queue []),
    Fifo-IsFifo (puts_of calls) _ _ (run-Fifo calls empty-Fifo),
  )

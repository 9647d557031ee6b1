-- ===== src/Queue/Invariant.antt =====
-- What the queue, its waiters and the calls of `get` have in common after any calls.
use cppsong.Base.{
  ℕ, zero, suc, ◌+◌, ◌≡◌, refl, ap, ap₂, List, [], ◌∷◌, ◌++◌, Option, some, map, inl, ◌⊎◌, arith,
}
use cppsong.Base.Lists.{length, get_elem?, replicate}
use cppsong.Base.Outcome.{Outcome, ok}
use cppsong.Queue.{
  GetWaiter, AsyncQueue, empty_queue, Get, returned, waits, new_waiter, complete, hand_over,
  after_wait, gives,
}

unfoldable pub count_from : ℕ → ℕ → List ℕ
count_from i zero = []
count_from i (suc k) = i ∷ count_from (i + 1) k

pub count_from-snoc : (i k j : ℕ) → j ≡ i + k → count_from i (suc k) ≡ count_from i k ++ j ∷ []
unfolding count_from
count_from-snoc i zero j e = ap (λ (n : ℕ). n ∷ []) (omega (arith, e))
count_from-snoc i (suc k) j e = ap (◌∷◌ i) (count_from-snoc (i + 1) k j (omega (arith, e)))

pub map-append :
    {A B : Type 0} (f : A → B) (xs ys : List A) → map f (xs ++ ys) ≡ map f xs ++ map f ys
map-append f [] ys = refl
map-append f (x ∷ xs) ys = ap (◌∷◌ (f x)) (map-append f xs ys)

pub count_from-suc :
    (i p w : ℕ) (ws : List ℕ)
    → count_from i p ≡ w ∷ ws
    → (k : ℕ) × (p ≡ suc k) × (w ≡ i) × (ws ≡ count_from (i + 1) k)
unfolding count_from
count_from-suc i zero w ws e = absurd (cc e)
count_from-suc i (suc k) w ws e = (k, refl, cc e, cc e)

pub count_from-nil : (i p : ℕ) → count_from i p ≡ [] → p ≡ 0
unfolding count_from
count_from-nil i zero e = refl
count_from-nil i (suc k) e = absurd (cc e)

module _ {T : Type 0} where
  -- The calls of `get` whose waiters are the `k` from `i` on.
  unfoldable pub waiting : ℕ → ℕ → List (Get T)
  waiting i zero = []
  waiting i (suc k) = waits i ∷ waiting (i + 1) k

  unfoldable pub given : T → Option (Outcome T)
  given v = some (ok v)

  -- The calls that have a value come before those that wait, and a value is in the queue only when
  -- nothing waits.
  pub record Fifo (puts : List T) (q : AsyncQueue T) (gets : List (Get T)) : Type 0 where
    pub served : List (Get T)
    pub passed : List T
    pub settled : List (GetWaiter T)
    pub pending : ℕ
    pub gets_split : gets ≡ served ++ waiting (length settled) pending
    pub waiters_are : q.get_waiters ≡ count_from (length settled) pending
    pub store_is : q.store ≡ settled ++ replicate pending new_waiter
    pub served_give : map (gives settled) served ≡ map given passed
    pub puts_split : puts ≡ passed ++ q.queue
    pub one_empty : (pending ≡ 0) ⊎ (q.queue ≡ [])

  -- A waiter that is made later changes no value given.
  pub after_wait-append :
      (store more : List (GetWaiter T)) (i : ℕ) (v : T)
      → after_wait (get_elem? store i) ≡ some (ok v)
      → after_wait (get_elem? (store ++ more) i) ≡ some (ok v)
  unfolding after_wait
  after_wait-append [] more i v h = absurd (cc h)
  after_wait-append (w ∷ ws) more zero v h = h
  after_wait-append (w ∷ ws) more (suc i) v h = after_wait-append ws more i v h

  pub gives-append :
      (store more : List (GetWaiter T)) (g : Get T) (v : T)
      → gives store g ≡ some (ok v)
      → gives (store ++ more) g ≡ some (ok v)
  unfolding gives
  gives-append store more (returned value) v h = h
  gives-append store more (waits i) v h = after_wait-append store more i v h

  pub map-gives-append :
      (store more : List (GetWaiter T)) (gets : List (Get T)) (vs : List T)
      → map (gives store) gets ≡ map given vs
      → map (gives (store ++ more)) gets ≡ map given vs
  unfolding given
  map-gives-append store more [] vs h = h
  map-gives-append store more (g ∷ gs) [] h = absurd (cc h)
  map-gives-append store more (g ∷ gs) (v ∷ vs) h =
      ap₂ ◌∷◌ (gives-append store more g v (cc h)) (map-gives-append store more gs vs (cc h))

  pub waiting-snoc : (i k j : ℕ) → j ≡ i + k → waiting i (suc k) ≡ waiting i k ++ waits j ∷ []
  unfolding waiting
  waiting-snoc i zero j e = ap (λ (n : ℕ). waits n ∷ []) (omega (arith, e))
  waiting-snoc i (suc k) j e = ap (◌∷◌ (waits i)) (waiting-snoc (i + 1) k j (omega (arith, e)))

  pub replicate-snoc : (k : ℕ) (w : GetWaiter T) → w ∷ replicate k w ≡ replicate k w ++ w ∷ []
  replicate-snoc zero w = refl
  replicate-snoc (suc k) w = ap (◌∷◌ w) (replicate-snoc k w)

  -- The first waiter is handed a value.
  pub hand_over-append :
      (settled ws : List (GetWaiter T)) (value : T) (w : GetWaiter T)
      → hand_over (length settled) value (settled ++ w ∷ ws)
        ≡ settled ++ complete (record w { value = some value }) ∷ ws
  unfolding hand_over
  hand_over-append [] ws value w = refl
  hand_over-append (s ∷ settled) ws value w = ap (◌∷◌ s) (hand_over-append settled ws value w)

  pub empty-Fifo : Fifo [] empty_queue []
  unfolding empty_queue count_from waiting
  empty-Fifo = record {
    served = [];
    passed = [];
    settled = [];
    pending = 0;
    gets_split = refl;
    waiters_are = refl;
    store_is = refl;
    served_give = refl;
    puts_split = refl;
    one_empty = inl refl;
  }

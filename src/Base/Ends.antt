-- ===== src/Base/Ends.antt =====
-- Runs that end in a value with a property or in an exception: never in an undefined step, never
-- without fuel. One rule for each step of the code.
use cppsong.Base.{
  refl, subst, ℕ, ◌+◌, ◌≤◌, ◌<◌, ◌≡◌, Bool, true, false, Bytes, ltb, leb, ltb→ge, leb→gt, gt→leb,
  ge→ltb, if◌then◌else◌,
}
use cppsong.Base.Lists.{length, take, drop, get_elem?-lt}
use cppsong.Base.Outcome.{
  Error, Outcome, ok, throw, bad_index, bad_address, hang, ◌>>=◌, ◌>>◌, throw_if, at, string_at,
}

abbrev pub Ends : {A : Type 0} → (A → Type 0) → Outcome A → Type 0
Ends P (ok a) = P a
Ends P (throw e) = Unit {0}
Ends P (bad_index i) = ⊥
Ends P (bad_address i) = ⊥
Ends P hang = ⊥

module _ {A : Type 0} (P : A → Type 0) where
  pub bind-Ends :
      {B : Type 0} (Q : B → Type 0) (m : Outcome B) (f : B → Outcome A)
      → Ends Q m
      → ((b : B) → Q b → Ends P (f b))
      → Ends P (m >>= f)
  bind-Ends Q (ok b) f h k = k b h
  bind-Ends Q (throw e) f h k = tt
  bind-Ends Q (bad_index i) f h k = h
  bind-Ends Q (bad_address i) f h k = h
  bind-Ends Q hang f h k = h

  pub throw_if-Ends :
      (b : Bool) (e : Error) (m : Outcome A) → (b ≡ false → Ends P m) → Ends P (throw_if b e >> m)
  throw_if-Ends true e m h = tt
  throw_if-Ends false e m h = h refl

  pub throw_lt-Ends :
      (m n : ℕ) (e : Error) (r : Outcome A)
      → (n ≤ m → Ends P r)
      → Ends P (throw_if (ltb m n) e >> r)
  throw_lt-Ends m n e r h = throw_if-Ends (ltb m n) e r (λ no. h (ltb→ge m n no))

  pub throw_le-Ends :
      (m n : ℕ) (e : Error) (r : Outcome A)
      → (n < m → Ends P r)
      → Ends P (throw_if (leb m n) e >> r)
  throw_le-Ends m n e r h = throw_if-Ends (leb m n) e r (λ no. h (leb→gt m n no))

  pub if-Ends :
      (b : Bool) (m n : Outcome A)
      → (b ≡ true → Ends P m)
      → (b ≡ false → Ends P n)
      → Ends P (if b then m else n)
  if-Ends true m n h k = h refl
  if-Ends false m n h k = k refl

  pub at-Ends :
      (v : Bytes) (i : ℕ) (f : ℕ → Outcome A)
      → i < length v
      → ((b : ℕ) → Ends P (f b))
      → Ends P (at v i >>= f)
  unfolding at
  at-Ends v i f h k = let (b, e) = get_elem?-lt v i h in rw (e, at) (k b)

  pub string_at-Ends :
      (v : Bytes) (i n : ℕ) (f : Bytes → Outcome A)
      → i < length v
      → i + n ≤ length v
      → ((xs : Bytes) → Ends P (f xs))
      → Ends P (string_at v i n >>= f)
  unfolding string_at
  string_at-Ends v i n f h k next =
      rw (gt→leb (length v) i h, ge→ltb (length v) (i + n) k) (next (take n (drop i v)))

pub map-Ends :
    {A : Type 0} (P Q : A → Type 0) (m : Outcome A) → ((a : A) → P a → Q a) → Ends P m → Ends Q m
map-Ends P Q (ok a) f h = f a h
map-Ends P Q (throw e) f h = tt
map-Ends P Q (bad_index i) f h = h
map-Ends P Q (bad_address i) f h = h
map-Ends P Q hang f h = h

pub Ends-ok : {A : Type 0} (P : A → Type 0) (m : Outcome A) {a : A} → Ends P m → m ≡ ok a → P a
Ends-ok P m h e = subst (Ends P) e h

-- ===== src/Base/Cursor.antt =====
-- Reading a byte sequence at an offset: what the accesses give when the rest from there is known,
-- and that they are defined inside the sequence.
use cppsong.Base.{
  ℕ, ◌+◌, ◌<◌, ◌≡◌, refl, sym, ap, ◌∙◌, [], ◌∷◌, ◌++◌, append_assoc, arith, some, Bytes, gt→leb,
  ge→ltb,
}
use cppsong.Base.Lists.{
  length, get_elem?, get_elem?-append, length-append, drop-append, take-append,
}
use cppsong.Base.Outcome.{Outcome, ok, throw, bad_index, bad_address, hang, at, string_at}

-- From offset `p` on, `v` reads `rest`.
pub record Rest (v : Bytes) (p : ℕ) (rest : Bytes) : Type 0 where
  pub before : Bytes
  pub splits : v ≡ before ++ rest
  pub position : length before ≡ p

pub Rest-start : (v : Bytes) → Rest v 0 v
Rest-start v = record { before = []; splits = refl; position = refl }

pub Rest-append : (xs ys : Bytes) → Rest (xs ++ ys) (length xs) ys
Rest-append xs ys = record { before = xs; splits = refl; position = refl }

pub Rest-skip :
    {v : Bytes} {p : ℕ} (xs : Bytes) {ys : Bytes} {q : ℕ}
    → Rest v p (xs ++ ys)
    → q ≡ p + length xs
    → Rest v q ys
Rest-skip xs {ys} r e = record {
  before = r.before ++ xs;
  splits = r.splits ∙ sym (append_assoc r.before xs ys);
  position = omega (arith, length-append r.before xs, r.position);
}

pub Rest-length : {v : Bytes} {p : ℕ} {rest : Bytes} → Rest v p rest → length v ≡ p + length rest
Rest-length {rest = rest} r =
    omega (arith, ap length r.splits, length-append r.before rest, r.position)

pub at-Rest : {v : Bytes} {p : ℕ} {b : ℕ} {rest : Bytes} → Rest v p (b ∷ rest) → at v p ≡ ok b
unfolding at
at-Rest {v} {p} {b} {rest} r =
    let found : get_elem? v p ≡ some b =
      rw (r.splits, ← r.position) (get_elem?-append r.before rest b) in
    rw (found, at)

-- The pieces of a `string_at` that stays inside.
pub string_at-Rest :
    {v : Bytes} {p n : ℕ} (xs rest : Bytes)
    → Rest v p (xs ++ rest)
    → length xs ≡ n
    → p < length v
    → string_at v p n ≡ ok xs
unfolding string_at
string_at-Rest {v} {p} {n} xs rest r e h = rw (
  gt→leb (length v) p h,
  ge→ltb (length v) (p + n) (omega (arith, Rest-length r, length-append xs rest)),
  r.splits,
  ← r.position,
  ← e,
  drop-append r.before (xs ++ rest),
  take-append xs rest,
)

-- A property of the value, for a run that ends in one; no other end is allowed.
abbrev pub Returns {ℓ} : {A : Type ℓ} → (A → Type 0) → Outcome A → Type 0
Returns P (ok a) = P a
Returns P _ = ⊥

pub Returns-ok :
    {A : Type 0} {P : A → Type 0} (m : Outcome A) → Returns P m → (a : A) × (m ≡ ok a) × P a
Returns-ok (ok a) p = (a, refl, p)
Returns-ok (throw e) p = absurd p
Returns-ok (bad_index i) p = absurd p
Returns-ok (bad_address i) p = absurd p
Returns-ok hang p = absurd p

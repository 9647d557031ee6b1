-- ===== src/Sniff/Access.antt =====
-- Rules for the accesses and guards of `sniffDomain`: one step of a proof for each step of the code.
use cppsong.Base.{
  subst, sym, ℕ, ◌+◌, ◌*◌, ◌^◌, ◌≤◌, ◌<◌, ◌≡◌, refl, ap, true, false, [], Bool, ◌∷◌, ◌++◌, Bytes,
  ltb, leb, if◌then◌else◌, Bool-cases, ltb→ge, leb→gt, inl, inr, arith, bit_or, ge→ltb, leb→le, ◌/◌,
  ◌%◌,
}
use cppsong.Base.Lists.{length, take, drop, get_elem?-lt}
use cppsong.Base.Outcome.{Outcome, ok, throw, bad_index, bad_address, hang, ◌>>=◌, at, string_at}
use cppsong.Base.Cursor.{Rest, Rest-skip, at-Rest}
use cppsong.Base.Words.{bit_or_join}
use cppsong.Bytes.Words.{be16}
use cppsong.Sniff.{word_at}

-- The run ends in a piece of `input`. It throws nothing, reads nothing outside `input`, and its loops
-- end. All that may go wrong is that it forms the address of the element just past the end.
abbrev pub IsDefined : Bytes → Outcome Bytes → Type 0
IsDefined input (ok name) =
    (i : ℕ) × (n : ℕ) × (name ≡ take n (drop i input)) × (i + n ≤ length input)
IsDefined input (bad_address i) = i ≡ length input
IsDefined input (throw e) = ⊥
IsDefined input (bad_index i) = ⊥
IsDefined input hang = ⊥

module _ (input : Bytes) where
  pub empty-IsDefined : IsDefined input (ok [])
  empty-IsDefined = (0, 0, refl, omega arith)

  pub guard_lt :
      (m n : ℕ) (r : Outcome Bytes)
      → (n ≤ m → IsDefined input r)
      → IsDefined input (if ltb m n then ok [] else r)
  guard_lt m n r h = elim (Bool-cases (ltb m n)) [
    | inl short ↦ rw short empty-IsDefined
    | inr long ↦ rw long (h (ltb→ge m n long))
  ]

  pub guard_le :
      (m n : ℕ) (r : Outcome Bytes)
      → (n < m → IsDefined input r)
      → IsDefined input (if leb m n then ok [] else r)
  guard_le m n r h = elim (Bool-cases (leb m n)) [
    | inl short ↦ rw short empty-IsDefined
    | inr long ↦ rw long (h (leb→gt m n long))
  ]

  -- `while (m <= n)`, with the rest of the round and of the loop in `r`.
  pub loop_le :
      (m n : ℕ) (r : Outcome Bytes)
      → (m ≤ n → IsDefined input r)
      → IsDefined input (elim (leb m n) [ false ↦ ok [] | true ↦ r ])
  loop_le m n r h = elim (Bool-cases (leb m n)) [
    | inl more ↦
        subst (λ t. IsDefined input (elim t [ false ↦ ok [] | true ↦ r ])) (sym more)
          (h (leb→le m n more))
    | inr done ↦
        subst (λ t. IsDefined input (elim t [ false ↦ ok [] | true ↦ r ])) (sym done)
          empty-IsDefined
  ]

  pub guard :
      (b : Bool) (r : Outcome Bytes) → IsDefined input r → IsDefined input (if b then ok [] else r)
  guard true r h = empty-IsDefined
  guard false r h = h

  pub either :
      (b : Bool) (r s : Outcome Bytes)
      → IsDefined input r
      → IsDefined input s
      → IsDefined input (if b then r else s)
  either true r s h k = h
  either false r s h k = k

  pub read_at :
      (i : ℕ) (f : ℕ → Outcome Bytes)
      → i < length input
      → ((b : ℕ) → IsDefined input (f b))
      → IsDefined input (at input i >>= f)
  unfolding at
  read_at i f h k = let (b, e) = get_elem?-lt input i h in rw (e, at) (k b)

  pub read_word :
      (i : ℕ) (f : ℕ → Outcome Bytes)
      → i + 1 < length input
      → ((w : ℕ) → IsDefined input (f w))
      → IsDefined input (word_at input i >>= f)
  unfolding word_at at
  read_word i f h k =
      let (b, e) = get_elem?-lt input i (omega arith) in
      let (c, e') = get_elem?-lt input (i + 1) h in rw (e, e', at) (k (bit_or (b * 2 ^ 8) c))

  pub string_at-IsDefined : (i n : ℕ) → i + n ≤ length input → IsDefined input (string_at input i n)
  unfolding string_at
  string_at-IsDefined i n h = elim (Bool-cases (leb (length input) i)) [
    | inl past ↦ rw past (omega (arith, leb→le (length input) i past))
    | inr inside ↦ rw (inside, ge→ltb (length input) (i + n) h) (i, n, refl, h)
  ]

-- A length prefix is read as the number that it encodes.
pub word_at-Rest :
    {input : Bytes} {p : ℕ} (n : ℕ) (rest : Bytes)
    → n < 2 ^ 16
    → Rest input p (be16 n ++ rest)
    → word_at input p ≡ ok n
unfolding word_at
word_at-Rest {input} {p} n rest small r =
    rw (at-Rest r, at-Rest (Rest-skip (n / 2 ^ 8 % 2 ^ 8 ∷ []) r refl))
      (ap ok (omega (arith, bit_or_join 8 (n / 2 ^ 8 % 2 ^ 8) (n % 2 ^ 8) (omega arith))))

-- ===== src/Bytes/Bounds.antt =====
-- The readers of utils/bytes.cpp at every position: where they throw, and what they give elsewhere.
use cppsong.Base.{
  ℕ, ◌+◌, ◌*◌, ◌^◌, ◌≤◌, ◌<◌, ◌≡◌, refl, sym, ap, ap₂, ◌∙◌, subst, [], ◌∷◌, ◌++◌, arith, some,
  Bytes, ltb, lt→ltb, inl, inr, Bool-cases, ltb→lt, ltb→ge,
}
use cppsong.Base.Lists.{length, get_elem?, get_elem?-lt, All, All-get_elem?}
use cppsong.Base.Outcome.{Outcome, ok, throw, read_out_of_range}
use cppsong.Bytes.{size_add, read_u8, read_u16, read_u32, read_u64}
use cppsong.Bytes.Words.{
  be16, be32, be64, Holds, read_u8-Holds, read_u16-Holds, read_u32-Holds, read_u64-Holds,
}

-- Every element is a byte.
abbrev pub IsBytes : Bytes → Type 0
IsBytes = All (λ b. b < 2 ^ 8)

-- What a read gives when the buffer has `width` bytes at `i`, and when it has fewer.
abbrev pub Reads : ℕ → (ℕ → Bytes) → (Bytes → ℕ → Outcome ℕ) → Bytes → ℕ → Type 0
Reads width be read v i =
    (i + width ≤ length v → (x : ℕ) × (read v i ≡ ok x) × (x < 2 ^ (8 * width)) × Holds v i (be x))
    × (length v < i + width → read v i ≡ throw read_out_of_range)

read_u8-Reads : (v : Bytes) (i : ℕ) → IsBytes v → i + 1 < 2 ^ 64 → Reads 1 (λ b. b ∷ []) read_u8 v i
unfolding read_u8
read_u8-Reads v i bytes h = (
  λ inside.
      let (b, e) = get_elem?-lt v i (omega arith) in
      (b, read_u8-Holds v i b h e, All-get_elem? (λ b. b < 2 ^ 8) v i b bytes e, (e, tt)),
  λ short. rw (lt→ltb (length v) (size_add i 1) (omega arith)),
)

Holds-join :
    (v : Bytes) (i hi lo : ℕ)
    → hi < 2 ^ 8
    → lo < 2 ^ 8
    → get_elem? v i ≡ some hi
    → get_elem? v (i + 1) ≡ some lo
    → Holds v i (be16 (hi * 2 ^ 8 + lo))
Holds-join v i hi lo h l e f = (e ∙ ap some (omega arith), (f ∙ ap some (omega arith), tt))

pub read_u16-Reads : (v : Bytes) (i : ℕ) → IsBytes v → i + 2 < 2 ^ 64 → Reads 2 be16 read_u16 v i
unfolding read_u16
read_u16-Reads v i bytes h = (
  λ inside.
      let (hi, _, hi_byte, at_hi) = (read_u8-Reads v i bytes (omega arith)).0 (omega arith) in
      let (lo, _, lo_byte, at_lo) = (read_u8-Reads v (i + 1) bytes (omega arith)).0 (omega arith) in
      let held = Holds-join v i hi lo hi_byte lo_byte at_hi.0 at_lo.0 in
      (hi * 2 ^ 8 + lo, read_u16-Holds v i _ h (omega arith) held, omega arith, held),
  λ short. elim (Bool-cases (ltb i (length v))) [
    | inl one ↦
        let (b, e, _, _) =
          (read_u8-Reads v i bytes (omega arith)).0 (omega (arith, ltb→lt i (length v) one)) in
        let next : size_add i 1 ≡ i + 1 = omega arith in
        rw (e, next, (read_u8-Reads v (i + 1) bytes (omega arith)).1 (omega arith))
    | inr none ↦
        rw ((read_u8-Reads v i bytes (omega arith)).1 (omega (arith, ltb→ge i (length v) none)))
  ],
)

Holds-append :
    (v : Bytes) (i j : ℕ) (xs ys : Bytes)
    → Holds v i xs
    → Holds v j ys
    → j ≡ i + length xs
    → Holds v i (xs ++ ys)
Holds-append v i j [] ys h k e = let e' : j ≡ i = omega arith in rw e' at k
Holds-append v i j (x ∷ xs) ys h k e = (h.0, Holds-append v (i + 1) j xs ys h.1 k (omega arith))

be32-join : (hi lo : ℕ) → hi < 2 ^ 16 → lo < 2 ^ 16 → be32 (hi * 2 ^ 16 + lo) ≡ be16 hi ++ be16 lo
be32-join hi lo h l = ap₂ (λ a b. be16 a ++ be16 b) (omega arith) (omega arith)

be64-join : (hi lo : ℕ) → hi < 2 ^ 32 → lo < 2 ^ 32 → be64 (hi * 2 ^ 32 + lo) ≡ be32 hi ++ be32 lo
be64-join hi lo h l = ap₂ (λ a b. be32 a ++ be32 b) (omega arith) (omega arith)

read_u32-Reads : (v : Bytes) (i : ℕ) → IsBytes v → i + 4 < 2 ^ 64 → Reads 4 be32 read_u32 v i
unfolding read_u32
read_u32-Reads v i bytes h = (
  λ inside.
      let (hi, _, hi_small, at_hi) = (read_u16-Reads v i bytes (omega arith)).0 (omega arith) in
      let (lo, _, lo_small, at_lo) =
        (read_u16-Reads v (i + 2) bytes (omega arith)).0 (omega arith) in
      let held : Holds v i (be32 (hi * 2 ^ 16 + lo)) =
        subst (Holds v i) (sym (be32-join hi lo hi_small lo_small))
          (Holds-append v i (i + 2) (be16 hi) (be16 lo) at_hi at_lo refl) in
      (hi * 2 ^ 16 + lo, read_u32-Holds v i _ h (omega arith) held, omega arith, held),
  λ short. elim (Bool-cases (ltb (i + 1) (length v))) [
    | inl half ↦
        let (b, e, _, _) =
          (read_u16-Reads v i bytes (omega arith)).0
            (omega (arith, ltb→lt (i + 1) (length v) half)) in
        let next : size_add i 2 ≡ i + 2 = omega arith in
        rw (e, next, (read_u16-Reads v (i + 2) bytes (omega arith)).1 (omega arith))
    | inr none ↦
        rw (
          (read_u16-Reads v i bytes (omega arith)).1
            (omega (arith, ltb→ge (i + 1) (length v) none)))
  ],
)

-- On a buffer of bytes and at a position whose `size_t` sums do not wrap, `read_u64` gives the
-- 64-bit value whose eight big-endian bytes stand there, if the buffer has them all, and throws
-- "read out of range" if it does not. It never indexes past the end.
pub read_u64-Reads : (v : Bytes) (i : ℕ) → IsBytes v → i + 8 < 2 ^ 64 → Reads 8 be64 read_u64 v i
unfolding read_u64
read_u64-Reads v i bytes h = (
  λ inside.
      let (hi, _, hi_small, at_hi) = (read_u32-Reads v i bytes (omega arith)).0 (omega arith) in
      let (lo, _, lo_small, at_lo) =
        (read_u32-Reads v (i + 4) bytes (omega arith)).0 (omega arith) in
      let held : Holds v i (be64 (hi * 2 ^ 32 + lo)) =
        subst (Holds v i) (sym (be64-join hi lo hi_small lo_small))
          (Holds-append v i (i + 4) (be32 hi) (be32 lo) at_hi at_lo refl) in
      (hi * 2 ^ 32 + lo, read_u64-Holds v i _ h (omega arith) held, omega arith, held),
  λ short. elim (Bool-cases (ltb (i + 3) (length v))) [
    | inl half ↦
        let (b, e, _, _) =
          (read_u32-Reads v i bytes (omega arith)).0
            (omega (arith, ltb→lt (i + 3) (length v) half)) in
        let next : size_add i 4 ≡ i + 4 = omega arith in
        rw (e, next, (read_u32-Reads v (i + 4) bytes (omega arith)).1 (omega arith))
    | inr none ↦
        rw (
          (read_u32-Reads v i bytes (omega arith)).1
            (omega (arith, ltb→ge (i + 3) (length v) none)))
  ],
)

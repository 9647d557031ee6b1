-- ===== src/Bytes/Words.antt =====
-- Words as big-endian byte sequences: what the writers leave in the buffer, what the readers make
-- of it.
use cppsong.Base.{
  ℕ, ◌+◌, ◌/◌, ◌%◌, ◌^◌, ◌<◌, ◌≡◌, subst, inl, inr, ap, [], ◌∷◌, ◌++◌, append_assoc, arith, some,
  Bytes, ltb, ge→ltb, Bool-cases, ltb→lt, ltb→ge,
}
use cppsong.Base.Lists.{length, get_elem?, get_elem?-append, length-append, get_elem?-ge}
use cppsong.Base.Outcome.{ok, at}
use cppsong.Base.Words.{bit_or_join}
use cppsong.Bytes.{pos, size_add, read_u8, read_u16, read_u32, read_u64, write_u8}

-- The bytes of a word, the highest first.
abbrev pub be16 : ℕ → Bytes
be16 v = (v / 2 ^ 8 % 2 ^ 8) ∷ (v % 2 ^ 8) ∷ []

abbrev pub be32 : ℕ → Bytes
be32 v = be16 (v / 2 ^ 16 % 2 ^ 16) ++ be16 (v % 2 ^ 16)

abbrev pub be64 : ℕ → Bytes
be64 v = be32 (v / 2 ^ 32 % 2 ^ 32) ++ be32 (v % 2 ^ 32)

-- `v` has the bytes `bs` from index `i` on.
abbrev pub Holds : Bytes → ℕ → Bytes → Type 0
Holds v i [] = Unit {0}
Holds v i (b ∷ bs) = (get_elem? v i ≡ some b) × Holds v (i + 1) bs

pub Holds-self : (xs ys zs : Bytes) (i : ℕ) → i ≡ length xs → Holds (xs ++ (ys ++ zs)) i ys
Holds-self xs [] zs i e = tt
Holds-self xs (y ∷ ys) zs i e = (
  rw e (get_elem?-append xs (ys ++ zs) y),
  subst (λ w. Holds w (i + 1) ys) (append_assoc xs (y ∷ []) (ys ++ zs))
      (Holds-self (xs ++ y ∷ []) ys zs (i + 1) (omega (arith, length-append xs (y ∷ []), e))),
)

pub read_u8-Holds :
    (v : Bytes) (i b : ℕ) → i + 1 < 2 ^ 64 → get_elem? v i ≡ some b → read_u8 v i ≡ ok b
unfolding read_u8 at
read_u8-Holds v i b h e = elim (Bool-cases (ltb i (length v))) [
  | inl inside ↦
      rw (ge→ltb (length v) (size_add i 1) (ground (arith, ltb→lt i (length v) inside)), e, at)
  | inr outside ↦ cc (get_elem?-ge v i (ltb→ge i (length v) outside))
]

pub read_u16-Holds :
    (v : Bytes) (i x : ℕ) → i + 2 < 2 ^ 64 → x < 2 ^ 16 → Holds v i (be16 x) → read_u16 v i ≡ ok x
unfolding read_u16
read_u16-Holds v i x h small held =
    rw
      (
        read_u8-Holds v i (x / 2 ^ 8 % 2 ^ 8) (omega arith) held.0,
        read_u8-Holds v (size_add i 1) (x % 2 ^ 8) (omega arith)
            (let e : size_add i 1 ≡ i + 1 = omega arith in rw e held.1.0),
      )
      (ap ok (omega (arith, bit_or_join 8 (x / 2 ^ 8 % 2 ^ 8) (x % 2 ^ 8) (omega arith))))

pub read_u32-Holds :
    (v : Bytes) (i x : ℕ) → i + 4 < 2 ^ 64 → x < 2 ^ 32 → Holds v i (be32 x) → read_u32 v i ≡ ok x
unfolding read_u32
read_u32-Holds v i x h small held =
    let e : size_add i 2 ≡ i + 1 + 1 = omega arith in
    rw
      (
        read_u16-Holds v i (x / 2 ^ 16 % 2 ^ 16) (omega arith) (omega arith)
            (held.0, (held.1.0, tt)),
        e,
        read_u16-Holds v (i + 1 + 1) (x % 2 ^ 16) (omega arith) (omega arith) held.1.1,
      )
      (ap ok (ground (arith, bit_or_join 16 (x / 2 ^ 16 % 2 ^ 16) (x % 2 ^ 16) (omega arith))))

pub read_u64-Holds :
    (v : Bytes) (i x : ℕ) → i + 8 < 2 ^ 64 → x < 2 ^ 64 → Holds v i (be64 x) → read_u64 v i ≡ ok x
unfolding read_u64
read_u64-Holds v i x h small held =
    let e : size_add i 4 ≡ i + 1 + 1 + 1 + 1 = omega arith in
    rw
      (
        read_u32-Holds v i (x / 2 ^ 32 % 2 ^ 32) (omega arith) (omega arith)
            (held.0, (held.1.0, (held.1.1.0, (held.1.1.1.0, tt)))),
        e,
        read_u32-Holds v (i + 1 + 1 + 1 + 1) (x % 2 ^ 32) (omega arith) (omega arith) held.1.1.1.1,
      )
      (ap ok (ground (arith, bit_or_join 32 (x / 2 ^ 32 % 2 ^ 32) (x % 2 ^ 32) (omega arith))))

-- Bytes written one after the other from index `i` on.
abbrev pub write_all : Bytes → ℕ → Bytes → Bytes
write_all v i [] = v
write_all v i (b ∷ bs) = write_all (write_u8 v b (pos i)) (i + 1) bs

pub write_all-append :
    (v : Bytes) (i j : ℕ) (xs ys : Bytes)
    → j ≡ i + length xs
    → write_all v i (xs ++ ys) ≡ write_all (write_all v i xs) j ys
write_all-append v i j [] ys e = let e' : i ≡ j = omega arith in rw e'
write_all-append v i j (x ∷ xs) ys e =
    write_all-append (write_u8 v x (pos i)) (i + 1) j xs ys (omega arith)

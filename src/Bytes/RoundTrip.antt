-- ===== src/Bytes/RoundTrip.antt =====
-- What is written with utils/bytes.cpp is read back, in place and at the end of the buffer, and
-- nothing else in the buffer changes.
use cppsong.Base.{
  subst, ℕ, ◌+◌, ◌-◌, ◌/◌, ◌^◌, ◌≤◌, ◌<◌, ◌≡◌, ◌≢◌, ◌⊎◌, inl, inr, refl, ap, ◌∙◌, [], ◌∷◌, ◌++◌,
  append_assoc, append-nil, arith, some, Bytes, ltb, Bool-cases, ltb→lt, ltb→ge, max,
}
use cppsong.Base.Lists.{
  length, get_elem?, get_elem?-append_left, get_elem?-set_self, get_elem?-set_ne, length-set,
  length-append, length-replicate, replicate,
}
use cppsong.Base.Outcome.{ok}
use cppsong.Base.Words.{bit_and-mask}
use cppsong.Bytes.{pos, negsuc, grow, read_u64, write_u8, write_u16, write_u32, write_u64}
use cppsong.Bytes.Words.{be16, be32, be64, Holds, Holds-self, write_all, read_u64-Holds}

pub write_u16-end : (v : Bytes) (x n : ℕ) → write_u16 v x (negsuc n) ≡ v ++ be16 x
unfolding write_u16 write_u8
write_u16-end v x n =
    rw (bit_and-mask 8 (x / 2 ^ 8), bit_and-mask 8 x, append_assoc) (ap (◌++◌ v) (ground arith))

write_u16-at : (v : Bytes) (x i : ℕ) → write_u16 v x (pos i) ≡ write_all v i (be16 x)
unfolding write_u16
write_u16-at v x i = rw (bit_and-mask 8 (x / 2 ^ 8), bit_and-mask 8 x) (ground arith)

pub write_u32-end : (v : Bytes) (x n : ℕ) → write_u32 v x (negsuc n) ≡ v ++ be32 x
unfolding write_u32
write_u32-end v x n =
    rw (bit_and-mask 16 (x / 2 ^ 16), bit_and-mask 16 x)
      (simp (write_u16-end, append_assoc) (ap (◌++◌ v) (ground arith)))

write_u32-at : (v : Bytes) (x i : ℕ) → write_u32 v x (pos i) ≡ write_all v i (be32 x)
unfolding write_u32
write_u32-at v x i =
    rw (bit_and-mask 16 (x / 2 ^ 16), bit_and-mask 16 x) (simp (write_u16-at) (ground arith))

write_u64-end : (v : Bytes) (x n : ℕ) → write_u64 v x (negsuc n) ≡ v ++ be64 x
unfolding write_u64
write_u64-end v x n =
    rw (bit_and-mask 32 (x / 2 ^ 32), bit_and-mask 32 x)
      (simp (write_u32-end, append_assoc) (ap (◌++◌ v) (ground arith)))

write_u64-at : (v : Bytes) (x i : ℕ) → write_u64 v x (pos i) ≡ write_all v i (be64 x)
unfolding write_u64
write_u64-at v x i =
    rw (bit_and-mask 32 (x / 2 ^ 32), bit_and-mask 32 x) (simp (write_u32-at) (ground arith))

-- One byte written in place: it is there, the rest is as before, the buffer reaches it.
write_u8_self : (v : Bytes) (b i : ℕ) → get_elem? (write_u8 v b (pos i)) i ≡ some b
unfolding write_u8
write_u8_self v b i = elim (Bool-cases (ltb (length v) (i + 1))) [
  | inl short ↦ rw short (
      get_elem?-set_self (grow v (i + 1)) i b (
        omega (
          arith,
          length-append v (replicate (i + 1 - length v) 0),
          length-replicate {A = ℕ} (i + 1 - length v) 0,
          ltb→lt (length v) (i + 1) short,
        )))
  | inr long ↦ rw long (get_elem?-set_self v i b (omega (arith, ltb→ge (length v) (i + 1) long)))
]

write_u8_ne :
    (v : Bytes) (b i j : ℕ)
    → i ≢ j
    → j < length v
    → get_elem? (write_u8 v b (pos i)) j ≡ get_elem? v j
unfolding write_u8
write_u8_ne v b i j ne h = elim (Bool-cases (ltb (length v) (i + 1))) [
  | inl short ↦ rw short (
      get_elem?-set_ne (grow v (i + 1)) i j b ne
      ∙ get_elem?-append_left v (replicate (i + 1 - length v) 0) j h)
  | inr long ↦ rw long (get_elem?-set_ne v i j b ne)
]

length-write_u8 : (v : Bytes) (b i : ℕ) → length (write_u8 v b (pos i)) ≡ max (length v) (i + 1)
unfolding write_u8
length-write_u8 v b i = elim (Bool-cases (ltb (length v) (i + 1))) [
  | inl short ↦
      rw (short, length-set (grow v (i + 1)) i b)
        (omega (
          arith,
          length-append v (replicate (i + 1 - length v) 0),
          length-replicate {A = ℕ} (i + 1 - length v) 0,
          ltb→lt (length v) (i + 1) short,
        ))
  | inr long ↦ rw (long, length-set v i b) (omega (arith, ltb→ge (length v) (i + 1) long))
]

length-write_all :
    (v : Bytes) (i : ℕ) (bs : Bytes)
    → i ≤ length v ⊎ (bs ≢ [])
    → length (write_all v i bs) ≡ max (length v) (i + length bs)
length-write_all v i [] (inl h) = omega arith
length-write_all v i [] (inr h) = absurd (h refl)
length-write_all v i (b ∷ bs) h = omega (
  arith,
  length-write_u8 v b i,
  length-write_all (write_u8 v b (pos i)) (i + 1) bs (inl (omega (arith, length-write_u8 v b i))),
)

write_all_outside :
    (v : Bytes) (i : ℕ) (bs : Bytes) (j : ℕ)
    → (j < i) ⊎ (i + length bs ≤ j)
    → j < length v
    → get_elem? (write_all v i bs) j ≡ get_elem? v j
write_all_outside v i [] j out h = refl
write_all_outside v i (b ∷ bs) j out h =
    write_all_outside (write_u8 v b (pos i)) (i + 1) bs j (omega arith)
      (omega (arith, length-write_u8 v b i))
    ∙ write_u8_ne v b i j (omega arith) h

-- A longer write leaves the bytes before it, as many as there are.
Holds-write_all : (v : Bytes) (i : ℕ) (bs : Bytes) → Holds (write_all v i bs) i bs
Holds-write_all v i [] = tt
Holds-write_all v i (b ∷ bs) = (
  write_all_outside (write_u8 v b (pos i)) (i + 1) bs i (omega arith)
        (omega (arith, length-write_u8 v b i))
      ∙ write_u8_self v b i,
  Holds-write_all (write_u8 v b (pos i)) (i + 1) bs,
)

-- A 64-bit value written at a position, in the buffer or past its end, is read back from there;
-- every byte of the old buffer outside the eight written ones is as it was; and the buffer is as
-- long as it was, or reaches just to the end of the value. The position is so small that no
-- `size_t` sum wraps.
pub read_u64-write_u64 :
    (v : Bytes) (x i : ℕ)
    → x < 2 ^ 64
    → i + 8 < 2 ^ 31
    → (read_u64 (write_u64 v x (pos i)) i ≡ ok x)
      × ((j : ℕ)
          → (j < i) ⊎ (i + 8 ≤ j)
          → j < length v
          → get_elem? (write_u64 v x (pos i)) j ≡ get_elem? v j)
      × (length (write_u64 v x (pos i)) ≡ max (length v) (i + 8))
read_u64-write_u64 v x i small h = rw (write_u64-at v x i) (
  read_u64-Holds (write_all v i (be64 x)) i x (omega arith) small (Holds-write_all v i (be64 x)),
  λ j out inside. write_all_outside v i (be64 x) j out inside,
  length-write_all v i (be64 x) (inr (λ e. cc)),
)

-- A 64-bit value appended to a buffer leaves the old bytes in front, adds eight, and is read back
-- at the old end. Any negative position appends.
pub read_u64-write_u64-end :
    (v : Bytes) (x n : ℕ)
    → x < 2 ^ 64
    → length v + 8 < 2 ^ 64
    → (read_u64 (write_u64 v x (negsuc n)) (length v) ≡ ok x)
      × ((rest : Bytes) × (write_u64 v x (negsuc n) ≡ v ++ rest) × (length rest ≡ 8))
read_u64-write_u64-end v x n small h = rw (write_u64-end v x n) (
  read_u64-Holds (v ++ be64 x) (length v) x h small (
      subst (λ w. Holds (v ++ w) (length v) (be64 x)) (append-nil (be64 x))
        (Holds-self v (be64 x) [] (length v) refl)),
  (be64 x, refl, refl),
)

-- ===== src/Bytes/Examples.antt =====
-- Runs of utils/bytes.cpp at fixed inputs.
use cppsong.Base.{ℕ, ◌+◌, ◌≤◌, ◌<◌, ◌≡◌, ◌⊎◌, refl, [], ◌∷◌, arith, Bytes, max}
use cppsong.Base.Lists.{length, get_elem?}
use cppsong.Base.Outcome.{ok, throw, at, read_out_of_range}
use cppsong.Bytes.{
  pos, at_end, read_u8, read_u16, read_u64, write_u8, write_u16, write_u32, write_u64,
}
use cppsong.Bytes.RoundTrip.{read_u64-write_u64}

-- A hole in front of the value is filled with zeros.
write_u32_past_end : write_u32 (7 ∷ []) 0x01020304 (pos 2) ≡ 7 ∷ 0 ∷ 1 ∷ 2 ∷ 3 ∷ 4 ∷ []
unfolding write_u32 write_u16 write_u8
write_u32_past_end = refl

write_u64-at_end : write_u64 (9 ∷ []) 258 at_end ≡ 9 ∷ 0 ∷ 0 ∷ 0 ∷ 0 ∷ 0 ∷ 0 ∷ 1 ∷ 2 ∷ []
unfolding write_u64 write_u32 write_u16 write_u8
write_u64-at_end = refl

read_u16_inside : read_u16 (1 ∷ 2 ∷ 3 ∷ []) 1 ≡ ok 515
unfolding read_u16 read_u8 at
read_u16_inside = refl

read_u16_at_edge : read_u16 (1 ∷ 2 ∷ 3 ∷ []) 2 ≡ throw read_out_of_range
unfolding read_u16 read_u8 at
read_u16_at_edge = refl

abbrev nine : Bytes
nine = 1 ∷ 2 ∷ 3 ∷ 4 ∷ 5 ∷ 6 ∷ 7 ∷ 8 ∷ 9 ∷ []

read_u64-write_u64_example :
    (read_u64 (write_u64 nine 0xdeadbeef (pos 5)) 5 ≡ ok 0xdeadbeef)
    × ((j : ℕ)
        → (j < 5) ⊎ (5 + 8 ≤ j)
        → j < length nine
        → get_elem? (write_u64 nine 0xdeadbeef (pos 5)) j ≡ get_elem? nine j)
    × (length (write_u64 nine 0xdeadbeef (pos 5)) ≡ max (length nine) (5 + 8))
read_u64-write_u64_example = read_u64-write_u64 nine 0xdeadbeef 5 (omega arith) (omega arith)

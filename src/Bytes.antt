-- ===== src/Bytes.antt =====
-- src/utils/bytes.hpp and src/utils/bytes.cpp: big-endian words in a byte vector.
-- An `int pos` is ℤ: a negative one, the default -1, means the end of the buffer. `pos + 1` is an
-- `int` sum, so a write position is below 2 ^ 31 - 8 here. The read position is a `size_t`, whose
-- sums wrap.
pub mod Words
pub mod RoundTrip
pub mod Bounds
mod Examples
use cppsong.Base.{
  ℕ, ◌+◌, ◌-◌, ◌*◌, ◌/◌, ◌%◌, ◌^◌, bit_and, bit_or, ◌∷◌, [], ◌++◌, Bytes, ltb, if◌then◌else◌,
}
use cppsong.Base.Lists.{length, set, replicate}
use cppsong.Base.Outcome.{Outcome, ok, ◌>>=◌, ◌>>◌, throw_if, at, read_out_of_range}

-- `negsuc n` is -(n + 1).
pub data ℤ : Type 0 where
  pos : ℕ → ℤ
  negsuc : ℕ → ℤ

-- The default argument -1.
abbrev pub at_end : ℤ
at_end = negsuc 0

-- The sum of two `size_t`.
abbrev pub size_add : ℕ → ℕ → ℕ
size_add m n = (m + n) % 2 ^ 64

unfoldable pub read_u8 : Bytes → ℕ → Outcome ℕ
read_u8 buffer i = do throw_if (ltb (length buffer) (size_add i 1)) read_out_of_range; at buffer i

unfoldable pub read_u16 : Bytes → ℕ → Outcome ℕ
read_u16 buffer i = do
  data1 ← read_u8 buffer i
  data2 ← read_u8 buffer (size_add i 1)
  ok (bit_or (data1 * 2 ^ 8) data2 % 2 ^ 16)

unfoldable pub read_u32 : Bytes → ℕ → Outcome ℕ
read_u32 buffer i = do
  data1 ← read_u16 buffer i
  data2 ← read_u16 buffer (size_add i 2)
  ok (bit_or (data1 * 2 ^ 16 % 2 ^ 32) data2)

unfoldable pub read_u64 : Bytes → ℕ → Outcome ℕ
read_u64 buffer i = do
  data1 ← read_u32 buffer i
  data2 ← read_u32 buffer (size_add i 4)
  ok (bit_or (data1 * 2 ^ 32 % 2 ^ 64) data2)

-- `buffer.resize(n)` for an `n` that is not smaller than the size.
abbrev pub grow : Bytes → ℕ → Bytes
grow buffer n = buffer ++ replicate (n - length buffer) 0

unfoldable pub write_u8 : Bytes → ℕ → ℤ → Bytes
write_u8 buffer value (negsuc _) = buffer ++ value ∷ []
write_u8 buffer value (pos i) =
    set (if ltb (length buffer) (i + 1) then grow buffer (i + 1) else buffer) i value

unfoldable pub write_u16 : Bytes → ℕ → ℤ → Bytes
write_u16 buffer value (negsuc _) =
    let data1 = bit_and (value / 2 ^ 8) 0xff % 2 ^ 8 in
    let data2 = bit_and value 0xff % 2 ^ 8 in write_u8 (write_u8 buffer data1 at_end) data2 at_end
write_u16 buffer value (pos i) =
    let data1 = bit_and (value / 2 ^ 8) 0xff % 2 ^ 8 in
    let data2 = bit_and value 0xff % 2 ^ 8 in
    write_u8 (write_u8 buffer data1 (pos i)) data2 (pos (i + 1))

unfoldable pub write_u32 : Bytes → ℕ → ℤ → Bytes
write_u32 buffer value (negsuc _) =
    let data1 = bit_and (value / 2 ^ 16) 0xffff % 2 ^ 16 in
    let data2 = bit_and value 0xffff % 2 ^ 16 in
    write_u16 (write_u16 buffer data1 at_end) data2 at_end
write_u32 buffer value (pos i) =
    let data1 = bit_and (value / 2 ^ 16) 0xffff % 2 ^ 16 in
    let data2 = bit_and value 0xffff % 2 ^ 16 in
    write_u16 (write_u16 buffer data1 (pos i)) data2 (pos (i + 2))

unfoldable pub write_u64 : Bytes → ℕ → ℤ → Bytes
write_u64 buffer value (negsuc _) =
    let data1 = bit_and (value / 2 ^ 32) 0xffffffff % 2 ^ 32 in
    let data2 = bit_and value 0xffffffff % 2 ^ 32 in
    write_u32 (write_u32 buffer data1 at_end) data2 at_end
write_u64 buffer value (pos i) =
    let data1 = bit_and (value / 2 ^ 32) 0xffffffff % 2 ^ 32 in
    let data2 = bit_and value 0xffffffff % 2 ^ 32 in
    write_u32 (write_u32 buffer data1 (pos i)) data2 (pos (i + 4))

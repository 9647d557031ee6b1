-- ===== src/Base/Words.antt =====
-- The shifts, masks and joins of unsigned words that the code writes, as arithmetic: `hi << k | lo`
-- is a sum when `lo` has at most `k` bits, and a mask of `k` low bits is a remainder.
use Prim.Native.Nat.{min, max, digits, bitwise, bit_and-bitwise, bit_or-bitwise}
use native.Mathlib.Nat.{pow-suc, one-le-pow}
use cppsong.Base.{
  Bool, true, false, not, ◌&&◌, ◌==◌, ℕ, zero, suc, ◌+◌, ◌-◌, ◌*◌, ◌/◌, ◌%◌, ◌^◌, ◌≤◌, ◌<◌, bit_and,
  bit_or, ◌≡◌, refl, ap, arith,
}

-- More fuel than the first number changes nothing.
more_fuel :
    (z : ℕ → ℕ) (f : ℕ → ℕ → ℕ) (n m a b : ℕ) → a ≤ n → a ≤ m → digits z f n a b ≡ digits z f m a b
more_fuel z f zero zero a b p q = refl
more_fuel z f zero (suc m) zero b p q = refl
more_fuel z f zero (suc m) (suc a) b p q = elim p [ ]
more_fuel z f (suc n) zero zero b p q = refl
more_fuel z f (suc n) zero (suc a) b p q = elim q [ ]
more_fuel z f (suc n) (suc m) zero b p q = refl
more_fuel z f (suc n) (suc m) (suc a) b p q =
    ap (λ (t : ℕ). t * 2 + f (suc a % 2) (b % 2))
      (more_fuel z f n m (suc a / 2) (b / 2) (omega arith) (omega arith))

lowest_digit :
    (z : ℕ → ℕ) (f : ℕ → ℕ → ℕ) (a b : ℕ)
    → bitwise z f (suc a) b ≡ bitwise z f (suc a / 2) (b / 2) * 2 + f (suc a % 2) (b % 2)
lowest_digit z f a b =
    omega (arith, more_fuel z f a (suc a / 2) (suc a / 2) (b / 2) (omega arith) (omega arith))

bit_or_digit : (a b : ℕ) → bit_or a b ≡ bit_or (a / 2) (b / 2) * 2 + max (a % 2) (b % 2)
bit_or_digit zero b = simp bit_or-bitwise (omega arith)
bit_or_digit (suc a) b = simp bit_or-bitwise (lowest_digit (λ y. y) max a b)

bit_and_digit : (a b : ℕ) → bit_and a b ≡ bit_and (a / 2) (b / 2) * 2 + min (a % 2) (b % 2)
bit_and_digit zero b = simp bit_and-bitwise (omega arith)
bit_and_digit (suc a) b = simp bit_and-bitwise (lowest_digit (λ y. 0) min a b)

bit_or-zero_below : (n a : ℕ) → a ≤ n → bit_or a 0 ≡ a
bit_or-zero_below n zero h = refl
bit_or-zero_below zero (suc a) h = elim h [ ]
bit_or-zero_below (suc n) (suc a) h =
    omega (arith, bit_or_digit (suc a) 0, bit_or-zero_below n (suc a / 2) (omega arith))

bit_and-zero_below : (n a : ℕ) → a ≤ n → bit_and a 0 ≡ 0
bit_and-zero_below n zero h = refl
bit_and-zero_below zero (suc a) h = elim h [ ]
bit_and-zero_below (suc n) (suc a) h =
    omega (arith, bit_and_digit (suc a) 0, bit_and-zero_below n (suc a / 2) (omega arith))

-- The number whose `k` low bits are set.
abbrev pub mask : ℕ → ℕ
mask k = 2 ^ k - 1

double_shift : (hi k : ℕ) → hi * 2 ^ suc k ≡ 2 * (hi * 2 ^ k)
double_shift hi k = omega (arith, ap (λ (t : ℕ). hi * t) (pow-suc 2 k))

pub bit_or_join : (k hi lo : ℕ) → lo < 2 ^ k → bit_or (hi * 2 ^ k) lo ≡ hi * 2 ^ k + lo
bit_or_join zero hi lo h = ground (arith, bit_or-zero_below hi hi)
bit_or_join (suc k) hi lo h = ground (
  arith,
  bit_or_digit (hi * 2 ^ suc k) lo,
  double_shift hi k,
  pow-suc 2 k,
  bit_or_join k hi (lo / 2) (omega arith),
)

bit_and-mask_join : (k hi lo : ℕ) → lo < 2 ^ k → bit_and (hi * 2 ^ k + lo) (mask k) ≡ lo
bit_and-mask_join zero hi lo h = ground (arith, bit_and-zero_below (hi * 1 + lo) (hi * 1 + lo))
bit_and-mask_join (suc k) hi lo h = ground (
  arith,
  bit_and_digit (hi * 2 ^ suc k + lo) (mask (suc k)),
  double_shift hi k,
  pow-suc 2 k,
  one-le-pow k 2,
  bit_and-mask_join k hi (lo / 2) (omega arith),
)

pub bit_and-mask : (k a : ℕ) → bit_and a (mask k) ≡ a % 2 ^ k
bit_and-mask k a = ground (arith, one-le-pow k 2, bit_and-mask_join k (a / 2 ^ k) (a % 2 ^ k))

-- A test over a small range, by evaluation.
check_below : ℕ → (ℕ → Bool) → Bool
check_below zero test = true
check_below (suc n) test = test n && check_below n test

check_below→true :
    (n : ℕ) (test : ℕ → Bool) (x : ℕ) → check_below n test ≡ true → x < n → test x ≡ true
unfolding check_below
check_below→true zero test x all h = absurd (omega arith)
check_below→true (suc n) test x all h = ground (arith, check_below→true n test x)

-- The two high bits of a byte.
pub high_bits_clear : (x : ℕ) → x < 64 → (bit_and x 0xc0 == 0xc0) ≡ false
unfolding check_below
high_bits_clear x h =
    ground (arith, check_below→true 64 (λ x. not (bit_and x 0xc0 == 0xc0)) x refl h)

pub high_bits_set : (x : ℕ) → x < 64 → (bit_and (0xc0 + x) 0xc0 == 0xc0) ≡ true
unfolding check_below
high_bits_set x h = check_below→true 64 (λ x. bit_and (0xc0 + x) 0xc0 == 0xc0) x refl h

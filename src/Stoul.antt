-- ===== src/Stoul.antt =====
-- `std::stoul` of C++ in the C locale, as the program calls it, with base 10 or 16 and no position.
pub mod Hex
pub mod Total
mod Examples
use cppsong.Base.{
  ℕ, zero, suc, ◌+◌, ◌-◌, ◌*◌, ◌%◌, ◌^◌, Bool, true, false, ◌&&◌, ◌||◌, List, [], ◌∷◌, Bytes,
  Option, none, some, ltb, leb, ◌==◌, if◌then◌else◌,
}
use cppsong.Base.Outcome.{Outcome, ok, throw, invalid_argument, out_of_range}

unfoldable pub is_space : ℕ → Bool
is_space c = c == b' ' || leb 9 c && leb c 13

-- The digit that a character is in some base.
digit : ℕ → Option ℕ
digit c =
    if leb b'0' c && leb c b'9'
    then some (c - b'0')
    else if leb b'a' c && leb c b'z'
    then some (c - b'a' + 10)
    else if leb b'A' c && leb c b'Z'
    then some (c - b'A' + 10)
    else none

is_digit : ℕ → Option ℕ → Bool
is_digit base none = false
is_digit base (some d) = ltb d base

unfoldable pub skip_space : Bytes → Bytes
unfolding is_space
skip_space [] = []
skip_space (c ∷ cs) = let rest = skip_space cs in if is_space c then rest else c ∷ cs

-- The digits at the front of a text.
digits_from : ℕ → Option ℕ → List ℕ → List ℕ
digits_from base none rest = []
digits_from base (some d) rest = if ltb d base then d ∷ rest else []

digits : ℕ → Bytes → List ℕ
unfolding digit digits_from
digits base [] = []
digits base (c ∷ cs) = digits_from base (digit c) (digits base cs)

number : ℕ → ℕ → List ℕ → ℕ
number base acc [] = acc
number base acc (d ∷ ds) = number base (acc * base + d) ds

-- "0x" in front of a digit, in base 16.
skip_0x : ℕ → Bytes → Bytes
unfolding digit is_digit
skip_0x base (a ∷ x ∷ c ∷ cs) =
    if base == 16 && (a == b'0' && (x == b'x' || x == b'X')) && is_digit base (digit c)
    then c ∷ cs
    else a ∷ x ∷ c ∷ cs
skip_0x base cs = cs

-- A value above ULONG_MAX throws, whatever its sign; a negative one is taken modulo 2 ^ 64.
from_digits : ℕ → Bool → List ℕ → Outcome ℕ
unfolding number
from_digits base negative [] = throw invalid_argument
from_digits base negative (d ∷ ds) =
    let value = number base 0 (d ∷ ds) in
    if leb (2 ^ 64) value
    then throw out_of_range
    else ok (if negative then (2 ^ 64 - value) % 2 ^ 64 else value)

unsigned : ℕ → Bool → Bytes → Outcome ℕ
unfolding from_digits digits digits_from skip_0x
unsigned base negative text = from_digits base negative (digits base (skip_0x base text))

signed : ℕ → Bytes → Outcome ℕ
unfolding unsigned
signed base [] = unsigned base false []
signed base (c ∷ cs) =
    if c == b'+'
    then unsigned base false cs
    else if c == b'-'
    then unsigned base true cs
    else unsigned base false (c ∷ cs)

unfoldable pub stoul : ℕ → Bytes → Outcome ℕ
unfolding skip_space signed
stoul base text = signed base (skip_space text)

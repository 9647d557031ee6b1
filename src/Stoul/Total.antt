-- ===== src/Stoul/Total.antt =====
-- `std::stoul` gives a number of the range of `unsigned long` or throws, on every text.
use cppsong.Base.{
  ℕ, ◌-◌, ◌%◌, ◌^◌, ◌<◌, Bool, true, false, List, [], ◌∷◌, Bytes, leb, leb→gt, ◌==◌, if◌then◌else◌,
  arith,
}
use cppsong.Base.Ends.{Ends, if-Ends}
use cppsong.Stoul.{number, from_digits, unsigned, signed, digits, skip_0x, skip_space, stoul}

abbrev pub IsUnsignedLong : ℕ → Type 0
IsUnsignedLong n = n < 2 ^ 64

from_digits-Ends :
    (base : ℕ) (negative : Bool) (ds : List ℕ) → Ends IsUnsignedLong (from_digits base negative ds)
unfolding from_digits
from_digits-Ends base negative [] = tt
from_digits-Ends base negative (d ∷ ds) =
    let value = number base 0 (d ∷ ds) in
    if-Ends IsUnsignedLong (leb (2 ^ 64) value) _ _ (λ _. tt)
      (λ small. in_range negative value (leb→gt (2 ^ 64) value small))
  where
    in_range :
        (negative : Bool) (value : ℕ)
        → value < 2 ^ 64
        → (if negative then (2 ^ 64 - value) % 2 ^ 64 else value) < 2 ^ 64
    in_range true value h = omega arith
    in_range false value h = h

unsigned-Ends :
    (base : ℕ) (negative : Bool) (text : Bytes) → Ends IsUnsignedLong (unsigned base negative text)
unfolding unsigned
unsigned-Ends base negative text = from_digits-Ends base negative (digits base (skip_0x base text))

signed-Ends : (base : ℕ) (text : Bytes) → Ends IsUnsignedLong (signed base text)
unfolding signed
signed-Ends base [] = unsigned-Ends base false []
signed-Ends base (c ∷ cs) =
    if-Ends IsUnsignedLong (c == b'+') _ _ (λ _. unsigned-Ends base false cs)
      (λ _.
        if-Ends IsUnsignedLong (c == b'-') _ _ (λ _. unsigned-Ends base true cs)
          (λ _. unsigned-Ends base false (c ∷ cs)))

pub stoul-Ends : (base : ℕ) (text : Bytes) → Ends IsUnsignedLong (stoul base text)
unfolding stoul
stoul-Ends base text = signed-Ends base (skip_space text)

-- ===== src/Stoul/Hex.antt =====
-- Two hexadecimal digits are read as the byte that they spell.
use cppsong.Base.{
  ℕ, zero, suc, ◌+◌, ◌-◌, ◌/◌, ◌%◌, ◌<◌, ◌≡◌, refl, Bool, true, false, ◌&&◌, [], ◌∷◌, Bytes, ltb,
  ◌==◌, ==_iff, if◌then◌else◌, arith,
}
use cppsong.Base.Outcome.{Outcome, ok, throw}
use cppsong.Stoul.{stoul}

-- Lower-case digits, as a UUID is written.
abbrev pub hex_digit : ℕ → ℕ
hex_digit n = if ltb n 10 then n + b'0' else n - 10 + b'a'

abbrev pub hex_byte : ℕ → Bytes
hex_byte b = hex_digit (b / 16) ∷ hex_digit (b % 16) ∷ []

reads : Outcome ℕ → ℕ → Bool
reads (ok a) b = a == b
reads _ b = false

all_below : ℕ → (ℕ → Bool) → Bool
all_below zero p = true
all_below (suc n) p = p n && all_below n p

below_all : (n : ℕ) (p : ℕ → Bool) (x : ℕ) → all_below n p ≡ true → x < n → p x ≡ true
unfolding all_below
below_all zero p x h lt = absurd (omega arith)
below_all (suc n) p x h lt = ground (arith, below_all n p x)

hex_table : all_below 256 (λ b. reads (stoul 16 (hex_byte b)) b) ≡ true
unfolding all_below reads stoul
hex_table = refl

reads-ok : (r : Outcome ℕ) (b : ℕ) → reads r b ≡ true → r ≡ ok b
unfolding reads
reads-ok (ok a) b h = ground (arith, ==_iff a b)
reads-ok (throw e) b h = cc h
reads-ok _ b h = cc h

pub stoul-hex_byte : (b : ℕ) → b < 256 → stoul 16 (hex_byte b) ≡ ok b
stoul-hex_byte b h =
    reads-ok _ b (below_all 256 (λ b. reads (stoul 16 (hex_byte b)) b) b hex_table h)

-- ===== src/Builder/Uuid.antt =====
-- `Builder::buildUuid`: what it accepts and what it gives.
use cppsong.Base.{
  sym, append_assoc, ℕ, zero, suc, ◌+◌, ◌*◌, ◌/◌, ◌%◌, ◌^◌, ◌<◌, ◌≡◌, refl, ap, ◌∙◌, false, not, [],
  ◌∷◌, ◌++◌, Bytes, ◌==◌, if◌then◌else◌, arith,
}
use cppsong.Base.Ends.{Ends, bind-Ends, throw_if-Ends}
use cppsong.Base.Lists.{drop-append, length-append, length, take, drop, All}
use cppsong.Base.Outcome.{Outcome, ok, ◌>>=◌, ◌>>◌, throw_if, error_uuid}
use cppsong.Stoul.{stoul}
use cppsong.Stoul.Hex.{hex_digit, hex_byte, stoul-hex_byte}
use cppsong.Stoul.Total.{IsUnsignedLong, stoul-Ends}

-- `uuid.erase(std::remove(…, '-'), …)`
pub without_dashes : Bytes → Bytes
without_dashes [] = []
without_dashes (c ∷ cs) = let rest = without_dashes cs in if c == b'-' then rest else c ∷ rest

-- The rounds from `i` on; `substr` starts inside the text, which has 32 characters.
pub uuid_bytes : ℕ → ℕ → Bytes → Outcome Bytes
uuid_bytes zero i uuid = ok []
uuid_bytes (suc n) i uuid = do
  value ← stoul 16 (take 2 (drop (i * 2) uuid))
  result ← uuid_bytes n (i + 1) uuid
  ok (value % 2 ^ 8 ∷ result)

unfoldable pub build_uuid : Bytes → Outcome Bytes
unfolding without_dashes uuid_bytes
build_uuid text = do
  let uuid = without_dashes text
  throw_if (not (length uuid == 32)) error_uuid
  uuid_bytes 16 0 uuid

-- `n` bytes.
pub record IsUuid (n : ℕ) (v : Bytes) : Type 0 where
  pub size : length v ≡ n
  pub bytes : All (λ b. b < 256) v

uuid_bytes-Ends : (n i : ℕ) (uuid : Bytes) → Ends (IsUuid n) (uuid_bytes n i uuid)
unfolding uuid_bytes
uuid_bytes-Ends zero i uuid = record { size = refl; bytes = tt }
uuid_bytes-Ends (suc n) i uuid =
    bind-Ends (IsUuid (suc n)) IsUnsignedLong (stoul 16 (take 2 (drop (i * 2) uuid))) _
      (stoul-Ends 16 (take 2 (drop (i * 2) uuid)))
      λ value _.
        bind-Ends (IsUuid (suc n)) (IsUuid n) (uuid_bytes n (i + 1) uuid) _
          (uuid_bytes-Ends n (i + 1) uuid)
          λ result is. record { size = ap suc is.size; bytes = (omega arith, is.bytes) }

-- On every text `buildUuid` gives sixteen bytes or throws.
pub build_uuid-Ends : (text : Bytes) → Ends (IsUuid 16) (build_uuid text)
unfolding build_uuid
build_uuid-Ends text =
    throw_if-Ends (IsUuid 16) (not (length (without_dashes text) == 32)) error_uuid _
      (λ _. uuid_bytes-Ends 16 0 (without_dashes text))

abbrev pub hex_text : Bytes → Bytes
hex_text [] = []
hex_text (b ∷ bs) = hex_byte b ++ hex_text bs

-- `plain` with dashes put in anywhere.
pub data Dashed : Bytes → Bytes → Type 0 where
  nothing : Dashed [] []
  dash : {text plain : Bytes} → Dashed text plain → Dashed (b'-' ∷ text) plain
  char : (c : ℕ) {text plain : Bytes} → Dashed text plain → Dashed (c ∷ text) (c ∷ plain)

hex_digit-ne_dash : (n : ℕ) → n < 16 → (hex_digit n == b'-') ≡ false
hex_digit-ne_dash n h = ground arith

-- The text has no dash.
abbrev NoDash : Bytes → Type 0
NoDash = All (λ c. (c == b'-') ≡ false)

hex_text-NoDash : (bs : Bytes) → All (λ b. b < 256) bs → NoDash (hex_text bs)
hex_text-NoDash [] h = tt
hex_text-NoDash (b ∷ bs) (h, hs) = (
  hex_digit-ne_dash (b / 16) (omega arith),
  (hex_digit-ne_dash (b % 16) (omega arith), hex_text-NoDash bs hs),
)

without_dashes-Dashed :
    {text plain : Bytes} → Dashed text plain → NoDash plain → without_dashes text ≡ plain
unfolding without_dashes
without_dashes-Dashed nothing h = refl
without_dashes-Dashed (dash d) h = without_dashes-Dashed d h
without_dashes-Dashed (char c d) (h, hs) = rw h (ap (◌∷◌ c) (without_dashes-Dashed d hs))

length-hex_text : (bs : Bytes) → length (hex_text bs) ≡ 2 * length bs
length-hex_text [] = refl
length-hex_text (b ∷ bs) = omega (arith, length-hex_text bs)

uuid_bytes-hex :
    (before bs : Bytes) (i : ℕ)
    → length before ≡ i * 2
    → All (λ b. b < 256) bs
    → uuid_bytes (length bs) i (before ++ hex_text bs) ≡ ok bs
unfolding uuid_bytes
uuid_bytes-hex before [] i e h = refl
uuid_bytes-hex before (b ∷ bs) i e (h, hs) =
    let here : take 2 (drop (i * 2) (before ++ hex_text (b ∷ bs))) ≡ hex_byte b =
      rw (← e, drop-append before (hex_text (b ∷ bs))) in
    let later : uuid_bytes (length bs) (i + 1) (before ++ hex_text (b ∷ bs)) ≡ ok bs =
      ap (uuid_bytes (length bs) (i + 1)) (sym (append_assoc before (hex_byte b) (hex_text bs)))
      ∙ uuid_bytes-hex (before ++ hex_byte b) bs (i + 1)
          (omega (arith, e, length-append before (hex_byte b))) hs in
    let small : b % 2 ^ 8 ≡ b = omega arith in rw (here, stoul-hex_byte b h, later, small)

-- A text of thirty-two lower-case hexadecimal digits, with dashes put in anywhere, is read as the
-- sixteen bytes that it spells.
pub build_uuid-hex_text :
    (text bs : Bytes)
    → length bs ≡ 16
    → All (λ b. b < 256) bs
    → Dashed text (hex_text bs)
    → build_uuid text ≡ ok bs
unfolding build_uuid
build_uuid-hex_text text bs size bytes d =
    let plain = without_dashes-Dashed d (hex_text-NoDash bs bytes) in
    let long : length (hex_text bs) ≡ 32 = omega (arith, length-hex_text bs) in
    rw (plain, long)
      (ap (λ (n : ℕ). uuid_bytes n 0 (hex_text bs)) (sym size) ∙ uuid_bytes-hex [] bs 0 refl bytes)

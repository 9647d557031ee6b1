-- ===== src/Inbound/Http/Search.antt =====
-- The first line of a request is found, however the bytes come in.
use cppsong.Base.{
  ℕ, ◌<◌, ◌≡◌, refl, subst, sym, ap, ◌∙◌, Bool-cases, inl, inr, ◌⊎◌, true, false, zero, suc, [],
  ◌∷◌, ◌++◌, append_assoc, Bytes, none, some, ◌==◌, if◌then◌else◌, arith,
}
use cppsong.Base.Cursor.{Returns}
use cppsong.Base.Lists.{length, length-append}
use cppsong.Connection.{Connection, IsStream}
use cppsong.Connection.Steps.{read-Returns, Returns-map}
use cppsong.Inbound.{has_byte}
use cppsong.Router.{starts_with}
use cppsong.Inbound.Http.{crlf, cut, read_to}

-- No line ends in the text.
abbrev pub IsLine : Bytes → Type 0
IsLine line = has_byte 13 line ≡ false

-- Either the end of the line is not yet in the buffer, or the buffer is cut there.
abbrev Splits : Bytes → Bytes → Bytes → Bytes → Type 0
Splits line rest buffer more =
    ((cut crlf buffer ≡ none) × (0 < length more))
    ⊎ ((behind : Bytes) × (cut crlf buffer ≡ some (line, behind)) × (behind ++ more ≡ rest))

-- A byte that is no mark is before it.
cut-skip :
    (b : ℕ) (bs : Bytes)
    → (13 == b) ≡ false
    → cut crlf (b ∷ bs)
      ≡ elim (cut crlf bs) [ none ↦ none | some found ↦ some (b ∷ found.0, found.1) ]
unfolding cut starts_with
cut-skip b bs other = rw other refl

other_byte : (l : ℕ) (ls : Bytes) → IsLine (l ∷ ls) → ((13 == l) ≡ false) × IsLine ls
unfolding has_byte
other_byte l ls is_line =
    let tested : (if l == 13 then true else has_byte 13 ls) ≡ false = is_line in
    elim (Bool-cases (l == 13)) [
      | inl same ↦ absurd (ground arith)
      | inr other ↦ (ground arith, ground arith)
    ]

step-Splits :
    (line rest buffer more : Bytes) (b : ℕ)
    → (13 == b) ≡ false
    → Splits line rest buffer more
    → Splits (b ∷ line) rest (b ∷ buffer) more
step-Splits line rest buffer more b other (inl (not_yet, nonempty)) =
    inl (cut-skip b buffer other ∙ rw not_yet refl, nonempty)
step-Splits line rest buffer more b other (inr (behind, found, same)) =
    inr (behind, cut-skip b buffer other ∙ rw found refl, same)

cut-Splits :
    (line rest buffer more : Bytes)
    → IsLine line
    → buffer ++ more ≡ line ++ (crlf ++ rest)
    → Splits line rest buffer more
unfolding cut starts_with
cut-Splits line rest [] more is_line same =
    inl (refl, omega (arith, ap length same, length-append line (crlf ++ rest)))
cut-Splits [] rest (b ∷ []) more is_line same =
    let first : b ≡ 13 = cc in
    let others : more ≡ 10 ∷ rest = cc in inl (rw first refl, omega (arith, ap length others))
cut-Splits [] rest (b ∷ b' ∷ bs) more is_line same =
    let first : b ≡ 13 = cc in
    let second : b' ≡ 10 = cc in
    let others : bs ++ more ≡ rest = cc in inr (bs, rw (first, second) refl, others)
cut-Splits (l ∷ ls) rest (b ∷ bs) more is_line same =
    let first : b ≡ l = cc in
    let others : bs ++ more ≡ ls ++ (crlf ++ rest) = cc in
    let (other, is_line') = other_byte l ls is_line in
    subst (λ x. Splits (l ∷ ls) rest (x ∷ bs) more) (sym first)
      (step-Splits ls rest bs more l other (cut-Splits ls rest bs more is_line' others))

module _ {C : Type 0} (conn : Connection C) (stream : IsStream conn) where
  -- The line is cut off, and what is behind it is in the buffer or still to come.
  abbrev pub Found : C → Bytes → Bytes → (Bytes × Bytes) × C → Type 0
  Found c line rest r =
      (r.0.0 ≡ line) × (r.0.1 ++ stream.input r.1 ≡ rest) × (stream.sent r.1 ≡ stream.sent c)

  pub read_to-Found :
      (fuel : ℕ) (c : C) (line rest buffer : Bytes)
      → IsLine line
      → buffer ++ stream.input c ≡ line ++ (crlf ++ rest)
      → length (stream.input c) < fuel
      → Returns (Found c line rest) (read_to conn crlf fuel buffer c)
  unfolding read_to
  read_to-Found zero c line rest buffer is_line same enough = absurd (omega (arith, enough))
  read_to-Found (suc fuel) c line rest buffer is_line same enough =
      elim (cut-Splits line rest buffer (stream.input c) is_line same) [
        | inl (not_yet, more) ↦
            rw (not_yet, Returns)
              (read-Returns conn stream (Found c line rest) c 4096 _ (omega arith) more
                λ c' got behind split nonempty input sent.
                  let less : length (stream.input c') < fuel = omega (
                    arith,
                    enough,
                    ap length split,
                    length-append got behind,
                    ap length input,
                    nonempty,
                  ) in
                  let same' : (buffer ++ got) ++ stream.input c' ≡ line ++ (crlf ++ rest) =
                    append_assoc buffer got (stream.input c')
                    ∙ ap (λ (t : Bytes). buffer ++ t)
                        (ap (λ (t : Bytes). got ++ t) input ∙ sym split)
                    ∙ same in
                  Returns-map (Found c' line rest) (Found c line rest)
                    (read_to conn crlf fuel (buffer ++ got) c')
                    (λ r (is_found, kept, told). (is_found, kept, told ∙ sent))
                    (read_to-Found fuel c' line rest (buffer ++ got) is_line same' less))
        | inr (behind, found, split) ↦ rw (found, Returns) (refl, split, refl)
      ]

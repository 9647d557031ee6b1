-- ===== src/Dns/Message/Rounds.antt =====
-- One round of the loop of `encodeQname`.
use cppsong.Base.{
  ℕ, suc, ◌+◌, ◌-◌, ◌%◌, ◌^◌, ◌≤◌, ◌<◌, ◌≡◌, refl, sym, ap, ◌∙◌, subst, [], ◌∷◌, ◌++◌, append_assoc,
  append-nil, arith, none, Bytes, Bool, ltb, ◌==◌, ◌||◌, lt→ltb, false,
}
use cppsong.Base.Lists.{length, length-append}
use cppsong.Base.Cursor.{Rest, Rest-skip, Rest-length, at-Rest}
use cppsong.Base.Outcome.{ok, ◌>>◌, throw_if, label_is_invalid}
use cppsong.Bytes.{write_u8}
use cppsong.Bytes.Bounds.{IsBytes}
use cppsong.Dns.Message.{find, write_label, encode_labels}
use cppsong.Dns.Message.Name.{find-append, find_from-Rest}

pub write_label-Rest :
    (l : Bytes) (domain : Bytes) (i : ℕ) (rest buffer : Bytes)
    → IsBytes l
    → Rest domain i (l ++ rest)
    → write_label (length l) domain i buffer ≡ ok (buffer ++ l)
unfolding write_label write_u8
write_label-Rest [] domain i rest buffer bytes r = rw append-nil
write_label-Rest (c ∷ l) domain i rest buffer (byte, bytes) r =
    let small : c % 2 ^ 8 ≡ c = omega arith in
    rw (at-Rest r, small)
      (write_label-Rest l domain (i + 1) rest (buffer ++ c ∷ []) bytes (Rest-skip (c ∷ []) r refl)
        ∙ ap ok (append_assoc buffer (c ∷ []) l))

-- The test of a label's length.
abbrev pub bad_length : ℕ → Bool
bad_length n = n == 0 || ltb 63 n

pub good_length : (n : ℕ) → bad_length n ≡ false → (0 < n) × (n ≤ 63)
good_length n h = ground arith

pub length_good : (n : ℕ) → 0 < n → n ≤ 63 → bad_length n ≡ false
length_good n h k = ground arith

-- One round of the loop, at a last label and at one with a dot behind it.
module _ (fuel : ℕ) (domain : Bytes) (start : ℕ) (buffer l : Bytes) (bytes : IsBytes l) where
  pub last_round :
      0 < length l
      → find b'.' l ≡ none
      → Rest domain start l
      → encode_labels (suc fuel) domain start buffer
        ≡ throw_if (bad_length (length l)) label_is_invalid >> ok (buffer ++ (length l % 2 ^ 8 ∷ l))
  unfolding encode_labels write_u8
  last_round more no_dot r =
      let size : length domain - start ≡ length l = omega (arith, Rest-length r) in
      let whole : Rest domain start (l ++ []) = subst (Rest domain start) (sym (append-nil l)) r in
      rw (
        lt→ltb start (length domain) (omega (arith, Rest-length r)),
        find_from-Rest b'.' start domain l r,
        no_dot,
        size,
        write_label-Rest l domain start [] (buffer ++ (length l % 2 ^ 8) ∷ []) bytes whole,
        append_assoc,
        encode_labels,
      )

  pub dot_round :
      (rest : Bytes)
      → find b'.' l ≡ none
      → Rest domain start (l ++ b'.' ∷ rest)
      → encode_labels (suc fuel) domain start buffer
        ≡ throw_if (bad_length (length l)) label_is_invalid
          >> encode_labels fuel domain (start + length l + 1) (buffer ++ (length l % 2 ^ 8 ∷ l))
  unfolding encode_labels write_u8
  dot_round rest no_dot r =
      let size : start + length l - start ≡ length l = omega arith in
      rw (
        lt→ltb start (length domain) (omega (arith, Rest-length r, length-append l (b'.' ∷ rest))),
        find_from-Rest b'.' start domain (l ++ b'.' ∷ rest) r,
        find-append b'.' l rest no_dot,
        size,
        write_label-Rest l domain start (b'.' ∷ rest) (buffer ++ (length l % 2 ^ 8) ∷ []) bytes r,
        append_assoc,
        encode_labels,
      )

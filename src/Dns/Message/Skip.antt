-- ===== src/Dns/Message/Skip.antt =====
-- `skipName` on the names of RFC 1035, 4.1.4: labels that end in the root or in a pointer.
use cppsong.Base.{
  ℕ, zero, suc, ◌+◌, ◌/◌, ◌%◌, ◌^◌, ◌≤◌, ◌<◌, ◌≡◌, sym, ap, ◌∙◌, subst, List, [], ◌∷◌, ◌++◌,
  append_assoc, arith, Bytes, ◌==◌, gt→leb, ge→ltb, false,
}
use cppsong.Base.Lists.{length, length-append, All}
use cppsong.Base.Cursor.{Rest, Rest-skip, Rest-length, at-Rest}
use cppsong.Base.Outcome.{ok}
use cppsong.Base.Words.{high_bits_clear, high_bits_set}
use cppsong.Bytes.{read_u16}
use cppsong.Bytes.Words.{be16, Holds, Holds-self, read_u16-Holds}
use cppsong.Dns.Message.{skip_name_loop, skip_name}
use cppsong.Dns.Message.Name.{wire_labels, length-wire_labels}

-- A name in a packet: labels, and then the root or a pointer to an earlier name.
pub data Ending : Type 0 where
  root : Ending
  pointer : ℕ → Ending

pub record Name : Type 0 where
  pub labels : List Bytes
  pub ending : Ending

abbrev pub encode_ending : Ending → Bytes
encode_ending root = 0 ∷ []
encode_ending (pointer target) = (0xc0 + target / 2 ^ 8) ∷ target % 2 ^ 8 ∷ []

abbrev pub encode_name : Name → Bytes
encode_name n = wire_labels n.labels ++ encode_ending n.ending

abbrev pub EndingFits : Ending → Type 0
EndingFits root = Unit {0}
EndingFits (pointer target) = target < 2 ^ 14

abbrev pub LabelFits : Bytes → Type 0
LabelFits l = (0 < length l) × (length l ≤ 63)

pub record NameFits (n : Name) : Type 0 where
  pub labels_fit : All LabelFits n.labels
  pub ending_fits : EndingFits n.ending

module _ (packet : Bytes) where
  skip_name_loop-name :
      (ls : List Bytes) (ending : Ending) (fuel offset : ℕ) (rest : Bytes)
      → All LabelFits ls
      → EndingFits ending
      → Rest packet offset (wire_labels ls ++ (encode_ending ending ++ rest))
      → length ls < fuel
      → skip_name_loop fuel packet offset
        ≡ ok (offset + (length (wire_labels ls) + length (encode_ending ending)))
  unfolding skip_name_loop
  skip_name_loop-name ls ending zero offset rest fits end r h = elim h [ ]
  skip_name_loop-name [] root (suc fuel) offset rest fits end r h =
      rw (gt→leb (length packet) offset (omega (arith, Rest-length r)), at-Rest r)
  skip_name_loop-name [] (pointer target) (suc fuel) offset rest fits end r h = rw (
    gt→leb (length packet) offset (omega (arith, Rest-length r)),
    at-Rest r,
    high_bits_set (target / 2 ^ 8) (omega arith),
    ge→ltb (length packet) (offset + 2) (omega (arith, Rest-length r)),
  )
  skip_name_loop-name (l ∷ ls) ending (suc fuel) offset rest (fit, fits) end r h =
      let after = wire_labels ls ++ (encode_ending ending ++ rest) in
      let here : Rest packet offset ((length l ∷ l) ++ after) =
        subst (λ w. Rest packet offset (length l ∷ w))
          (append_assoc l (wire_labels ls) (encode_ending ending ++ rest)) r in
      let next =
        skip_name_loop-name ls ending fuel (offset + (length l + 1)) rest fits end
          (Rest-skip (length l ∷ l) here (omega arith)) (omega arith) in
      let nonzero : (length l == 0) ≡ false = ground arith in
      rw
        (
          gt→leb (length packet) offset (omega (arith, Rest-length r)),
          at-Rest r,
          high_bits_clear (length l) (omega arith),
          nonzero,
          ge→ltb 63 (length l) fit.1,
          next,
        )
        (ap ok (omega (arith, length-append l (wire_labels ls))))

  pub skip_name-name :
      (n : Name) (offset : ℕ) (rest : Bytes)
      → NameFits n
      → Rest packet offset (encode_name n ++ rest)
      → skip_name packet offset ≡ ok (offset + length (encode_name n))
  unfolding skip_name
  skip_name-name n offset rest fits r =
      let sizes = length-append (wire_labels n.labels) (encode_ending n.ending) in
      skip_name_loop-name n.labels n.ending (suc (length packet)) offset rest fits.labels_fit
        fits.ending_fits
        (subst (Rest packet offset)
          (append_assoc (wire_labels n.labels) (encode_ending n.ending) rest) r)
        (omega
          (arith, Rest-length r, length-append (encode_name n) rest, length-wire_labels n.labels))
      ∙ ap ok (omega arith)

  -- The two bytes of a field, at their place.
  pub read_u16-Rest :
      (n p : ℕ) (rest : Bytes)
      → n < 2 ^ 16
      → length packet < 2 ^ 63
      → Rest packet p (be16 n ++ rest)
      → read_u16 packet p ≡ ok n
  read_u16-Rest n p rest small size r =
      read_u16-Holds packet p n (omega (arith, Rest-length r)) small (
        subst (λ v. Holds v p (be16 n)) (sym r.splits)
          (Holds-self r.before (be16 n) rest p (sym r.position)))

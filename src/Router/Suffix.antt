-- ===== src/Router/Suffix.antt =====
-- The suffix test of `matchDomain`: the suffix itself and the names below it.
use mathlib.Core.Logic.{◌↔◌}
use cppsong.Base.{
  ℕ, ◌-◌, ◌≤◌, ◌<◌, ◌≡◌, ◌≢◌, refl, sym, ap, ◌∙◌, true, false, [], ◌∷◌, ◌++◌, Bytes, leb, leb→le,
  leb→gt, ◌==◌, ==_iff, bytes_eq, bytes_eq_iff, append_assoc, if◌then◌else◌, arith, Bool-cases, inl,
  inr, ◌⊎◌,
}
use cppsong.Base.Lists.{length, take, drop, length-append, length-take, take-append-drop}
use cppsong.Base.Outcome.{ok, ◌>>=◌, at}
use cppsong.Router.{ends_with, suffix_matches}
use cppsong.Router.Any.{Decides}
use cppsong.Base.Cursor.{at-Rest}

-- `item` itself, or a name below it.
abbrev pub IsBelow : Bytes → Bytes → Type 0
IsBelow domain item = (domain ≡ item) ⊎ ((sub : Bytes) × (domain ≡ sub ++ b'.' ∷ item))

-- The suffix test, in its three outcomes.
suffix_split :
    (domain item : Bytes)
    → length item ≤ length domain
    → (before : Bytes) × (after : Bytes) × (domain ≡ before ++ after)
      × (length after ≡ length item)
      × (ends_with domain item ≡ bytes_eq after item)
      × (length before ≡ length domain - length item)
suffix_split domain item h =
    let n = length domain - length item in
    let split = take-append-drop n domain in
    let sizes = length-append (take n domain) (drop n domain) in
    let front = length-take n domain in
    let total = ap length split in
    let back : length (drop n domain) ≡ length item = omega arith in
    (
      take n domain,
      drop n domain,
      sym split,
      back,
      ap (λ t. bytes_eq t item)
          (ap (λ (k : ℕ). take k (drop n domain)) (sym back) ∙ take_all (drop n domain)),
      omega arith,
    )
  where
    take_all : (xs : Bytes) → take (length xs) xs ≡ xs
    take_all [] = refl
    take_all (x ∷ xs) = ap (◌∷◌ x) (take_all xs)

append_injective :
    (xs xs' ys ys' : Bytes)
    → xs ++ ys ≡ xs' ++ ys'
    → length xs ≡ length xs'
    → (xs ≡ xs') × (ys ≡ ys')
append_injective [] [] ys ys' e h = (refl, e)
append_injective [] (x ∷ xs') ys ys' e h = absurd (omega arith)
append_injective (x ∷ xs) [] ys ys' e h = absurd (omega arith)
append_injective (x ∷ xs) (x' ∷ xs') ys ys' e h =
    let (same, rest) = append_injective xs xs' ys ys' (cc) (omega arith) in (cc, rest)

last_byte : (xs : Bytes) → 0 < length xs → (front : Bytes) × (c : ℕ) × (xs ≡ front ++ c ∷ [])
last_byte [] h = elim h [ ]
last_byte (x ∷ []) h = ([], x, refl)
last_byte (x ∷ y ∷ ys) h =
    let (front, c, e) = last_byte (y ∷ ys) (omega arith) in (x ∷ front, c, ap (◌∷◌ x) e)

-- A name that is `item` or below it ends in `item`.
below-ends :
    (domain item before after : Bytes)
    → domain ≡ before ++ after
    → length after ≡ length item
    → IsBelow domain item
    → after ≡ item
below-ends domain item before after e h (inl same) =
    (append_injective before [] after item (sym e ∙ same)
      (omega (arith, ap length (sym e ∙ same), length-append before after))).1
below-ends domain item before after e h (inr (sub, below)) =
    let sizes = length-append before after in
    let sizes' = length-append (sub ++ b'.' ∷ []) item in
    let both : before ++ after ≡ (sub ++ b'.' ∷ []) ++ item =
      sym e ∙ below ∙ sym (append_assoc sub (b'.' ∷ []) item) in
    (append_injective before (sub ++ b'.' ∷ []) after item both (omega (arith, ap length both))).1

length-IsBelow : (domain item : Bytes) → IsBelow domain item → length item ≤ length domain
length-IsBelow domain item (inl e) = omega (arith, ap length e)
length-IsBelow domain item (inr (sub, e)) =
    omega (arith, ap length e, length-append sub (b'.' ∷ item))

dot-IsBelow :
    (domain item front : Bytes) (c : ℕ)
    → domain ≡ (front ++ c ∷ []) ++ item
    → ((c == b'.') ≡ true) ↔ IsBelow domain item
dot-IsBelow domain item front c e = (
  λ dot. inr (
    front,
    e
        ∙ append_assoc front (c ∷ []) item
        ∙ ap (λ (t : ℕ). front ++ t ∷ item) ((==_iff c b'.').0 dot),
  ),
  back,
)
  where
    back : IsBelow domain item → (c == b'.') ≡ true
    back (inl same) = absurd (
        omega (
          arith,
          ap length (sym e ∙ same),
          length-append (front ++ c ∷ []) item,
          length-append front (c ∷ []),
        ))
    back (inr (sub, below)) =
        let both : (front ++ c ∷ []) ++ item ≡ (sub ++ b'.' ∷ []) ++ item =
          sym e ∙ below ∙ sym (append_assoc sub (b'.' ∷ []) item) in
        let sizes = ap length both in
        let heads =
          (append_injective (front ++ c ∷ []) (sub ++ b'.' ∷ []) item item both (
            omega (
              arith,
              length-append (front ++ c ∷ []) item,
              length-append (sub ++ b'.' ∷ []) item,
            ))).0 in
        let lasts =
          (append_injective front sub (c ∷ []) (b'.' ∷ []) heads (
            omega (
              arith,
              ap length heads,
              length-append front (c ∷ []),
              length-append sub (b'.' ∷ []),
            ))).1 in
        (==_iff c b'.').1 (cc)

-- The last test: nothing stands before the suffix, or a dot.
after_suffix-Decides :
    (domain item before : Bytes)
    → domain ≡ before ++ item
    → length before ≡ length domain - length item
    → Decides
        (if length domain == length item
          then ok true
          else (do c ← at domain (length domain - length item - 1); ok (c == b'.')))
        (IsBelow domain item)
after_suffix-Decides domain item before e size = elim (Bool-cases (length domain == length item)) [
  | inl whole ↦
      let same : length domain ≡ length item = (==_iff (length domain) (length item)).0 whole in
      (
        true,
        rw whole,
        (λ _. inl (e ∙ ap (λ (t : Bytes). t ++ item) (empty before (omega arith))), λ _. refl),
      )
  | inr longer ↦
      let (front, c, last) = last_byte before (nonempty longer) in
      let e' : domain ≡ (front ++ c ∷ []) ++ item = e ∙ ap (λ (t : Bytes). t ++ item) last in
      let found : at domain (length domain - length item - 1) ≡ ok c = at-Rest (record {
        before = front;
        splits = e' ∙ append_assoc front (c ∷ []) item;
        position = omega (arith, ap length last, length-append front (c ∷ []));
      }) in
      (c == b'.', rw (longer, found), dot-IsBelow domain item front c e')
]
  where
    empty : (xs : Bytes) → length xs ≡ 0 → xs ≡ []
    empty [] h = refl
    empty (x ∷ xs) h = absurd (omega arith)

    nonempty : (length domain == length item) ≡ false → 0 < length before
    nonempty longer =
        let unequal : length domain ≢ length item =
          λ q. let equal = (==_iff (length domain) (length item)).1 q in cc (equal, longer) in
        omega (arith, ap length e, length-append before item, unequal)

pub suffix_matches-Decides :
    (domain item : Bytes) → Decides (suffix_matches domain item) (IsBelow domain item)
unfolding suffix_matches
suffix_matches-Decides domain item = elim (Bool-cases (leb (length item) (length domain))) [
  | inr short ↦ (
    false,
    rw short,
    (
      λ t. cc t,
      λ below. absurd (
          omega
            (arith, length-IsBelow domain item below, leb→gt (length item) (length domain) short)),
    ),
  )
  | inl long ↦
      let (before, after, e, size', ends, size) =
        suffix_split domain item (leb→le (length item) (length domain) long) in
      elim (Bool-cases (ends_with domain item)) [
        | inr differing ↦ (
          false,
          rw (long, differing),
          (
            λ t. cc t,
            λ below.
                absurd (
                  differs after ends differing (below-ends domain item before after e size' below)),
          ),
        )
        | inl equal ↦
            let same : after ≡ item = (bytes_eq_iff after item).0 (sym ends ∙ equal) in
            let (b, r, iff) =
              after_suffix-Decides domain item before (e ∙ ap (◌++◌ before) same) size in
            (b, rw (long, equal) r, iff)
      ]
]
  where
    differs :
        (after : Bytes)
        → ends_with domain item ≡ bytes_eq after item
        → ends_with domain item ≡ false
        → after ≡ item
        → ⊥
    differs after ends differing same =
        let equal = (bytes_eq_iff after item).1 same in cc (ends, differing, equal)

-- ===== src/Router/Substring.antt =====
-- `domain.find(item) != npos` of `matchDomain`, against the meaning of a substring.
use mathlib.Core.Logic.{◌↔◌}
use cppsong.Base.{
  ◌≡◌, refl, sym, ap, subst, true, false, ◌||◌, [], ◌∷◌, ◌++◌, Bytes, arith, Bool-cases, inl, inr,
  ◌⊎◌,
}
use cppsong.Router.{starts_with, has_substring}

abbrev pub Contains : Bytes → Bytes → Type 0
Contains domain item = (before : Bytes) × (after : Bytes) × (domain ≡ before ++ (item ++ after))

starts_with→append :
    (item v : Bytes) → starts_with item v ≡ true → (after : Bytes) × (v ≡ item ++ after)
unfolding starts_with
starts_with→append [] v h = (v, refl)
starts_with→append (x ∷ xs) [] h = cc h
starts_with→append (x ∷ xs) (y ∷ ys) h =
    let (after, e) = starts_with→append xs ys (ground arith) in (after, ground (arith, e))

append→starts_with : (item after : Bytes) → starts_with item (item ++ after) ≡ true
unfolding starts_with
append→starts_with [] after = refl
append→starts_with (x ∷ xs) after = ground (arith, append→starts_with xs after)

pub has_substring_iff : (item v : Bytes) → (has_substring item v ≡ true) ↔ Contains v item
unfolding has_substring
has_substring_iff item [] =
    (λ h. let (after, e) = starts_with→append item [] h in ([], after, e), nothing)
  where
    nothing : Contains [] item → starts_with item [] ≡ true
    nothing ([], after, e) =
        subst (λ t. starts_with item t ≡ true) (sym e) (append→starts_with item after)
    nothing (b ∷ bs, after, e) = cc e
has_substring_iff item (c ∷ cs) =
    let rest = has_substring_iff item cs in
    (found rest (Bool-cases (starts_with item (c ∷ cs))), back rest)
  where
    found :
        (has_substring item cs ≡ true) ↔ Contains cs item
        → (starts_with item (c ∷ cs) ≡ true) ⊎ (starts_with item (c ∷ cs) ≡ false)
        → (starts_with item (c ∷ cs) || has_substring item cs) ≡ true
        → Contains (c ∷ cs) item
    found rest (inl here) h =
        let (after, e) = starts_with→append item (c ∷ cs) here in ([], after, e)
    found rest (inr later) h =
        let (before, after, e) = rest.0 (rw later at h) in (c ∷ before, after, ap (◌∷◌ c) e)

    back :
        (has_substring item cs ≡ true) ↔ Contains cs item
        → Contains (c ∷ cs) item
        → (starts_with item (c ∷ cs) || has_substring item cs) ≡ true
    back rest ([], after, e) =
        let here : starts_with item (c ∷ cs) ≡ true =
          subst (λ t. starts_with item t ≡ true) (sym e) (append→starts_with item after) in
        rw here
    back rest (b ∷ bs, after, e) =
        let later : has_substring item cs ≡ true = rest.1 (bs, after, cc) in ground (arith, later)

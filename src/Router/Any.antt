-- ===== src/Router/Any.antt =====
-- The loop of `matchDomain` and `Rule::match` over a list of tests, and what it decides.
use mathlib.Core.Logic.{◌↔◌}
use cppsong.Base.{◌≡◌, refl, Bool, true, false, List, [], ◌∷◌, if◌then◌else◌, inl, inr, ◌⊎◌}
use cppsong.Base.Lists.{All}
use cppsong.Base.Outcome.{Outcome, ok, ◌>>=◌}
use cppsong.Router.{any}

-- Some element has the property.
abbrev pub Some : {A : Type 0} → (A → Type 0) → List A → Type 0
Some P [] = ⊥
Some P (x ∷ xs) = P x ⊎ Some P xs

-- The test ends in a Boolean that decides the proposition.
abbrev pub Decides : Outcome Bool → Type 0 → Type 0
Decides r P = (b : Bool) × (r ≡ ok b) × ((b ≡ true) ↔ P)

pub any-Decides :
    {A : Type 0} (test : A → Outcome Bool) (P : A → Type 0) (xs : List A)
    → All (λ x. Decides (test x) (P x)) xs
    → Decides (any test xs) (Some P xs)
unfolding any
any-Decides test P [] each = (false, refl, (λ e. cc e, λ e. absurd e))
any-Decides test P (x ∷ xs) (h, each) = step h (any-Decides test P xs each)
  where
    step :
        Decides (test x) (P x)
        → Decides (any test xs) (Some P xs)
        → Decides (any test (x ∷ xs)) (Some P (x ∷ xs))
    step (true, e, iff) (c, e', iff') = (true, rw e, (λ _. inl (iff.0 refl), λ _. refl))
    step (false, e, iff) (c, e', iff') = (
      c,
      rw (e, e'),
      (λ t. inr (iff'.0 t), elim [ inl p ↦ absurd (cc (iff.1 p)) | inr q ↦ iff'.1 q ]),
    )

-- One list after the other.
pub else-Decides :
    {P Q : Type 0} (first next : Outcome Bool)
    → Decides first P
    → Decides next Q
    → Decides (do found ← first; if found then ok true else next) (P ⊎ Q)
else-Decides first next (true, e, iff) _ = (true, rw e, (λ _. inl (iff.0 refl), λ _. refl))
else-Decides first next (false, e, iff) (b, e', iff') = (
  b,
  rw (e, e'),
  (λ t. inr (iff'.0 t), elim [ inl p ↦ absurd (cc (iff.1 p)) | inr q ↦ iff'.1 q ]),
)

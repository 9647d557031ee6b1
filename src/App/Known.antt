-- ===== src/App/Known.antt =====
-- The map of outbounds of src/common/app.cpp: which tags it has, while it is filled and looked up.
use cppsong.Base.{
  ◌≡◌, refl, sym, ap, ap₂, subst, true, false, Bool-cases, inl, inr, List, [], ◌∷◌, Bytes, Option,
  none, some, bytes_eq, bytes_eq_self, bytes_eq_iff,
}
use cppsong.Base.Lists.{All}
use cppsong.Base.Outcome.{>>=-ok, Outcome, ok}
use cppsong.App.{Outbounds, outbound_of, set_outbound, add_outbounds}

-- There is an outbound with the tag, and the look-up leaves the map as it is.
pub record IsKnown {O : Type 0} (outbounds : Outbounds O) (tag : Bytes) : Type 0 where
  pub outbound : O
  pub found : outbound_of tag outbounds ≡ (some outbound, outbounds)

module _ {O : Type 0} where
  later-IsKnown :
      (entry : Bytes × Option O) (entries : Outbounds O) (tag : Bytes)
      → bytes_eq entry.0 tag ≡ false
      → IsKnown entries tag
      → IsKnown (entry ∷ entries) tag
  unfolding outbound_of
  later-IsKnown entry entries tag other known = record {
    outbound = known.outbound;
    found = rw (other, known.found) refl;
  }

  here-IsKnown :
      (t tag : Bytes) (o : O) (entries : Outbounds O)
      → bytes_eq t tag ≡ true
      → IsKnown ((t, some o) ∷ entries) tag
  unfolding outbound_of
  here-IsKnown t tag o entries same = record { outbound = o; found = rw same refl }

  set_outbound-IsKnown :
      (tag : Bytes) (o : O) (outbounds : Outbounds O) → IsKnown (set_outbound tag o outbounds) tag
  unfolding set_outbound
  set_outbound-IsKnown tag o [] = here-IsKnown tag tag o [] (bytes_eq_self tag)
  set_outbound-IsKnown tag o (entry ∷ entries) = elim (Bool-cases (bytes_eq entry.0 tag)) [
    | inl same ↦ rw same (here-IsKnown tag tag o entries (bytes_eq_self tag))
    | inr other ↦ rw other (later-IsKnown entry _ tag other (set_outbound-IsKnown tag o entries))
  ]

  earlier-IsKnown :
      (entry : Bytes × Option O) (entries : Outbounds O) (tag : Bytes)
      → bytes_eq entry.0 tag ≡ false
      → IsKnown (entry ∷ entries) tag
      → IsKnown entries tag
  unfolding outbound_of
  earlier-IsKnown entry entries tag other known =
      let rest : Option O × Outbounds O = outbound_of tag entries in
      let same : (rest.0, entry ∷ rest.1) ≡ (some known.outbound, entry ∷ entries) =
        rw other at known.found in
      let map_same : entry ∷ rest.1 ≡ entry ∷ entries =
        ap (λ (p : Option O × Outbounds O). p.1) same in
      let tail_same : rest.1 ≡ entries = cc in
      record {
        outbound = known.outbound;
        found =
            ap₂ (λ (x : Option O) (y : Outbounds O). (x, y))
              (ap (λ (p : Option O × Outbounds O). p.0) same) tail_same;
      }

  first-IsKnown :
      (entry : Bytes × Option O) (entries others : Outbounds O) (tag : Bytes)
      → bytes_eq entry.0 tag ≡ true
      → IsKnown (entry ∷ entries) tag
      → IsKnown (entry ∷ others) tag
  unfolding outbound_of
  first-IsKnown entry entries others tag same known =
      let found : (entry.1, entry ∷ entries) ≡ (some known.outbound, entry ∷ entries) =
        rw same at known.found in
      record {
        outbound = known.outbound;
        found = rw (same, ap (λ (p : Option O × Outbounds O). p.0) found) refl;
      }

  replaced-keeps :
      (entry : Bytes × Option O) (entries : Outbounds O) (tag : Bytes) (o : O) (tag' : Bytes)
      → entry.0 ≡ tag
      → IsKnown (entry ∷ entries) tag'
      → IsKnown ((tag, some o) ∷ entries) tag'
  replaced-keeps entry entries tag o tag' same known = elim (Bool-cases (bytes_eq tag tag')) [
    | inl this ↦ here-IsKnown tag tag' o entries this
    | inr other ↦
        later-IsKnown (tag, some o) entries tag' other
          (earlier-IsKnown entry entries tag'
            (subst (λ (t : Bytes). bytes_eq t tag' ≡ false) (sym same) other) known)
  ]

  after-keeps :
      (entry : Bytes × Option O) (entries others : Outbounds O) (tag : Bytes)
      → IsKnown (entry ∷ entries) tag
      → (IsKnown entries tag → IsKnown others tag)
      → IsKnown (entry ∷ others) tag
  after-keeps entry entries others tag known next = elim (Bool-cases (bytes_eq entry.0 tag)) [
    | inl this ↦ first-IsKnown entry entries others tag this known
    | inr other ↦
        later-IsKnown entry others tag other (next (earlier-IsKnown entry entries tag other known))
  ]

  -- What is known stays known.
  set_outbound-keeps :
      (tag : Bytes) (o : O) (outbounds : Outbounds O) (tag' : Bytes)
      → IsKnown outbounds tag'
      → IsKnown (set_outbound tag o outbounds) tag'
  unfolding outbound_of set_outbound
  set_outbound-keeps tag o [] tag' known =
      let impossible : none ≡ some known.outbound =
        ap (λ (p : Option O × Outbounds O). p.0) known.found in
      absurd cc
  set_outbound-keeps tag o (entry ∷ entries) tag' known = elim (Bool-cases (bytes_eq entry.0 tag)) [
    | inl same ↦
        rw same (replaced-keeps entry entries tag o tag' ((bytes_eq_iff entry.0 tag).0 same) known)
    | inr other ↦ rw other (
        after-keeps entry entries (set_outbound tag o entries) tag' known
          λ known'. set_outbound-keeps tag o entries tag' known')
  ]

module _ {O Config : Type 0} (tag : Config → Bytes) (build : Config → Outcome O) where
  add_outbounds-keeps :
      (items : List Config) (outbounds outbounds' : Outbounds O) (t : Bytes)
      → add_outbounds tag build items outbounds ≡ ok outbounds'
      → IsKnown outbounds t
      → IsKnown outbounds' t
  unfolding add_outbounds
  add_outbounds-keeps [] outbounds outbounds' t done known =
      let same : outbounds ≡ outbounds' = cc in subst (λ os. IsKnown os t) same known
  add_outbounds-keeps (item ∷ items) outbounds outbounds' t done known =
      let (o, built, rest) = >>=-ok (build item) _ done in
      add_outbounds-keeps items (set_outbound (tag item) o outbounds) outbounds' t rest
        (set_outbound-keeps (tag item) o outbounds t known)

  -- When every outbound of the configuration can be built, the tag of each is known afterwards.
  pub add_outbounds-IsKnown :
      (items : List Config) (outbounds outbounds' : Outbounds O)
      → add_outbounds tag build items outbounds ≡ ok outbounds'
      → All (λ item. IsKnown outbounds' (tag item)) items
  unfolding add_outbounds
  add_outbounds-IsKnown [] outbounds outbounds' done = tt
  add_outbounds-IsKnown (item ∷ items) outbounds outbounds' done =
      let (o, built, rest) = >>=-ok (build item) _ done in
      let next = set_outbound (tag item) o outbounds in
      (
        add_outbounds-keeps items next outbounds' (tag item) rest
            (set_outbound-IsKnown (tag item) o outbounds),
        add_outbounds-IsKnown items next outbounds' rest,
      )

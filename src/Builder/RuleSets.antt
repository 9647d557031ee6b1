-- ===== src/Builder/RuleSets.antt =====
-- What the rule sets of a router have of the configuration.
use cppsong.Base.{
  ◌≡◌, refl, sym, subst, ◌∙◌, List, [], ◌∷◌, ◌++◌, append_assoc, append-nil, Bytes, bytes_eq,
  bytes_eq_iff, Bool-cases, inl, inr,
}
use cppsong.Base.Ends.{Ends, bind-Ends, map-Ends}
use cppsong.Base.Lists.{All, map-All}
use cppsong.Base.Outcome.{Outcome, ok, throw, bad_index, bad_address, hang}
use cppsong.Builder.{BuilderApi}
use cppsong.Builder.Bounds.{load_rule_set-Ends}
use cppsong.Builder.Rules.{
  each, RuleSets, find_rule_set, set_rule_set, known_rule_set, append_rule_sets, load_rule_set,
  load_rule_sets,
}
use cppsong.Config.Types.{RuleSetConfig}
use cppsong.Ip.{IpApi}
use cppsong.Json.{JsonApi}
use cppsong.Router.{Rule}
use cppsong.Router.Any.{Some}

-- Two lists of one length, with the relation between the elements at each position.
abbrev pub Pairs : {A B : Type 0} → (A → B → Type 0) → List A → List B → Type 0
Pairs R [] [] = Unit {0}
Pairs R [] (b ∷ bs) = ⊥
Pairs R (a ∷ rest) [] = ⊥
Pairs R (a ∷ rest) (b ∷ bs) = R a b × Pairs R rest bs

pub each-Pairs :
    {A B : Type 0} (R : A → B → Type 0) (build : A → Outcome B) (items : List A)
    → ((a : A) → Ends (R a) (build a))
    → Ends (Pairs R items) (each build items)
unfolding each
each-Pairs R build [] h = tt
each-Pairs R build (item ∷ items) h =
    bind-Ends (Pairs R (item ∷ items)) (R item) (build item) _ (h item) λ b r.
      bind-Ends (Pairs R (item ∷ items)) (Pairs R items) (each build items) _
        (each-Pairs R build items h) λ rest rs. (r, rs)

-- A run that ends in a value is known to end in it.
pub Ends-known : {A : Type 0} (P : A → Type 0) (m : Outcome A) → Ends P m → Ends (λ a. m ≡ ok a) m
Ends-known P (ok a) h = refl
Ends-known P (throw e) h = tt
Ends-known P (bad_index i) h = h
Ends-known P (bad_address i) h = h
Ends-known P hang h = h

-- Whatever is said of the elements where they stand, holds of all.
pub All-Some :
    {A : Type 0} (items : List A) → All (λ item. (P : A → Type 0) → P item → Some P items) items
All-Some [] = tt
All-Some (item ∷ items) =
    ((λ P p. inl p), map-All items (λ x there P p. inr (there P p)) (All-Some items))

abbrev pub joined : {A : Type 0} → List (List A) → List A
joined [] = []
joined (xs ∷ xss) = xs ++ joined xss

module _ {Regex Ip Value Object : Type 0} (builder : BuilderApi Regex Ip Value) (api : IpApi Ip)
    (json : JsonApi Value Object) where
  -- A rule set with the name is configured, and loads as these rules.
  abbrev pub IsRuleSet : List RuleSetConfig → Bytes → List (Rule Regex Ip) → Type 0
  IsRuleSet items name rules =
      Some (λ item. (item.tag ≡ name) × (load_rule_set builder api json item ≡ ok rules)) items

  abbrev pub AreRuleSets : List RuleSetConfig → RuleSets Regex Ip → Type 0
  AreRuleSets items = All (λ entry. IsRuleSet items entry.0 entry.1)

  find_rule_set-IsRuleSet :
      (items : List RuleSetConfig) (tag : Bytes) (sets : RuleSets Regex Ip)
      → AreRuleSets items sets
      → Ends (IsRuleSet items tag) (known_rule_set (find_rule_set tag sets))
  unfolding find_rule_set
  find_rule_set-IsRuleSet items tag [] are = tt
  find_rule_set-IsRuleSet items tag ((key, rules) ∷ rest) are =
      elim (Bool-cases (bytes_eq key tag)) [
        | inl same ↦
            rw same (subst (λ t. IsRuleSet items t rules) ((bytes_eq_iff key tag).0 same) are.0)
        | inr other ↦ rw other (find_rule_set-IsRuleSet items tag rest are.1)
      ]

  set_rule_set-AreRuleSets :
      (items : List RuleSetConfig) (tag : Bytes) (rules : List (Rule Regex Ip))
      (sets : RuleSets Regex Ip)
      → IsRuleSet items tag rules
      → AreRuleSets items sets
      → AreRuleSets items (set_rule_set tag rules sets)
  unfolding set_rule_set
  set_rule_set-AreRuleSets items tag rules [] new are = (new, tt)
  set_rule_set-AreRuleSets items tag rules ((key, old) ∷ rest) new are =
      elim (Bool-cases (bytes_eq key tag)) [
        | inl same ↦
            rw same (
              subst (λ t. IsRuleSet items t rules) (sym ((bytes_eq_iff key tag).0 same)) new,
              are.1,
            )
        | inr other ↦ rw other (are.0, set_rule_set-AreRuleSets items tag rules rest new are.1)
      ]

  pub load_rule_sets-AreRuleSets :
      (items : List RuleSetConfig) (sets : RuleSets Regex Ip) (todo : List RuleSetConfig)
      → All (λ item. (P : RuleSetConfig → Type 0) → P item → Some P items) todo
      → AreRuleSets items sets
      → Ends (AreRuleSets items) (load_rule_sets builder api json sets todo)
  unfolding load_rule_sets
  load_rule_sets-AreRuleSets items sets [] among are = are
  load_rule_sets-AreRuleSets items sets (item ∷ todo) among are =
      bind-Ends (AreRuleSets items) (λ rules. load_rule_set builder api json item ≡ ok rules)
        (load_rule_set builder api json item) _
        (Ends-known _ (load_rule_set builder api json item)
          (load_rule_set-Ends builder api json item))
        λ rules loaded.
          load_rule_sets-AreRuleSets items (set_rule_set item.tag rules sets) todo among.1
            (set_rule_set-AreRuleSets items item.tag rules sets (among.0 _ (refl, loaded)) are)

  pub append_rule_sets-Pairs :
      (items : List RuleSetConfig) (sets : RuleSets Regex Ip) (rules : List (Rule Regex Ip))
      (names : List Bytes)
      → AreRuleSets items sets
      → Ends
          (λ all.
            (named : List (List (Rule Regex Ip))) × (all ≡ rules ++ joined named)
            × Pairs (IsRuleSet items) names named)
          (append_rule_sets sets rules names)
  unfolding append_rule_sets
  append_rule_sets-Pairs items sets rules [] are = ([], sym (append-nil rules), tt)
  append_rule_sets-Pairs items sets rules (name ∷ names) are =
      let P = λ (all : List (Rule Regex Ip)).
        (named : List (List (Rule Regex Ip))) × (all ≡ rules ++ joined named)
        × Pairs (IsRuleSet items) (name ∷ names) named in
      bind-Ends P (IsRuleSet items name) (known_rule_set (find_rule_set name sets)) _
        (find_rule_set-IsRuleSet items name sets are)
        λ found is_set.
          map-Ends
            (λ all.
              (named : List (List (Rule Regex Ip))) × (all ≡ (rules ++ found) ++ joined named)
              × Pairs (IsRuleSet items) names named)
            P (append_rule_sets sets (rules ++ found) names)
            (λ all (named, same, sets_are).
              (found ∷ named, same ∙ append_assoc rules found (joined named), (is_set, sets_are)))
            (append_rule_sets-Pairs items sets (rules ++ found) names are)

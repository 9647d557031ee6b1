-- ===== src/Tcp/Winner.antt =====
-- The race of the attempts, however they are interleaved: who wins, and whether anyone does.
use cppsong.Base.{
  ℕ, ◌≡◌, refl, sym, subst, ap, ◌∙◌, Bool, true, false, Bool-cases, ◌||◌, ◌⊎◌, inl, inr, List, [],
  ◌∷◌, ◌++◌, Option, none, some,
}
use cppsong.Base.Lists.{All, map-All}
use cppsong.Router.Any.{Some}
use cppsong.Tcp.{
  waiting, connected, all_failed, Race, spawn_attempts, attempt_succeeded, main_resumed, Step,
  succeeds, fails, resumes, Steps, here, then_step,
}

abbrev pub IsIn : {A : Type 0} → A → List A → Type 0
IsIn x xs = Some (λ y. y ≡ x) xs

every_one-IsIn : {A : Type 0} (xs : List A) → All (λ x. IsIn x xs) xs
every_one-IsIn [] = tt
every_one-IsIn (x ∷ xs) = (inl refl, map-All xs (λ y found. inr found) (every_one-IsIn xs))

All-split :
    {A : Type 0} (P : A → Type 0) (before after : List A) (x : A)
    → All P (before ++ x ∷ after)
    → P x × All P (before ++ after)
All-split P [] after x all = all
All-split P (b ∷ bs) after x all =
    let (this, rest) = All-split P bs after x all.1 in (this, (all.0, rest))

module _ {Ip : Type 0} (accepts : Ip → Bool) where
  unfoldable pub some_accepts : List Ip → Bool
  some_accepts [] = false
  some_accepts (ip ∷ ips) = accepts ip || some_accepts ips

  some_accepts-without :
      (before after : List Ip) (ip : Ip)
      → accepts ip ≡ false
      → some_accepts (before ++ ip ∷ after) ≡ some_accepts (before ++ after)
  unfolding some_accepts
  some_accepts-without [] after ip refused = rw refused refl
  some_accepts-without (b ∷ bs) after ip refused =
      ap (λ (t : Bool). accepts b || t) (some_accepts-without bs after ip refused)

  pub some_accepts-IsIn :
      (ips : List Ip) (ip : Ip) → accepts ip ≡ true → IsIn ip ips → some_accepts ips ≡ true
  unfolding some_accepts
  some_accepts-IsIn [] ip accepted found = absurd found
  some_accepts-IsIn (b ∷ bs) ip accepted (inl this) = rw (ap accepts this ∙ accepted) refl
  some_accepts-IsIn (b ∷ bs) ip accepted (inr found) = elim (Bool-cases (accepts b)) [
    | inl first ↦ rw first refl
    | inr other ↦ rw other (some_accepts-IsIn bs ip accepted found)
  ]

  -- Either nobody has won yet, and the attempts that are left have as good a chance as all had; or
  -- an address that accepts has, and `connect_address` waits or has its socket.
  pub data Standing (ips : List Ip) (race : Race Ip) : Type 0 where
    undecided :
        race.result ≡ none
        → race.timer_cancelled ≡ false
        → race.main ≡ waiting
        → some_accepts race.attempts ≡ some_accepts ips
        → Standing ips race
    decided :
        (ip : Ip)
        → race.result ≡ some ip
        → race.timer_cancelled ≡ true
        → (race.main ≡ waiting) ⊎ (race.main ≡ connected ip)
        → accepts ip ≡ true
        → IsIn ip ips
        → Standing ips race

  abbrev pub Attempts : List Ip → Race Ip → Type 0
  Attempts ips race = All (λ ip. IsIn ip ips) race.attempts

  succeeded-Standing :
      (ips : List Ip) (race : Race Ip) (ip : Ip) (attempts : List Ip)
      → accepts ip ≡ true
      → IsIn ip ips
      → Standing ips race
      → Standing ips (attempt_succeeded ip (record race { attempts = attempts }))
  unfolding attempt_succeeded
  succeeded-Standing ips race ip attempts accepted found (undecided no_result armed waits same) =
      rw no_result (decided ip refl refl (inl waits) accepted found)
  succeeded-Standing ips race ip attempts accepted found
        (decided ip' won cancelled main ok_ip found') =
      rw won (decided ip' won cancelled main ok_ip found')

  resumed-Standing :
      (ips : List Ip) (race : Race Ip)
      → race.timer_cancelled ≡ true
      → Standing ips race
      → Standing ips (main_resumed race)
  unfolding main_resumed
  resumed-Standing ips race cancelled (undecided no_result armed waits same) = absurd (cc)
  resumed-Standing ips race cancelled (decided ip won cancelled' main ok_ip found) =
      rw won (decided ip refl cancelled' (inr refl) ok_ip found)

  -- What holds in every state.
  abbrev pub Holds : List Ip → Race Ip → Type 0
  Holds ips race = Standing ips race × Attempts ips race

  pub attempts-succeeded :
      (ip : Ip) (race : Race Ip) → (attempt_succeeded ip race).attempts ≡ race.attempts
  unfolding attempt_succeeded
  attempts-succeeded ip race = by_result race.result refl
    where
      by_result :
          (r : Option Ip)
          → race.result ≡ r
          → (elim r as (λ x. Race Ip) [
            | some socket ↦ race
            | none ↦ record race { result = some ip; timer_cancelled = true }
          ]).attempts
            ≡ race.attempts
      by_result none e = refl
      by_result (some socket) e = refl

  pub attempts-resumed : (race : Race Ip) → (main_resumed race).attempts ≡ race.attempts
  unfolding main_resumed
  attempts-resumed race = by_result race.result
    where
      by_result :
          (r : Option Ip)
          → (elim r as (λ x. Race Ip) [
            | none ↦ record race { main = all_failed }
            | some socket ↦ record race { main = connected socket }
          ]).attempts
            ≡ race.attempts
      by_result none = refl
      by_result (some socket) = refl

  failed-Standing :
      (ips : List Ip) (race : Race Ip) (before after : List Ip) (ip : Ip)
      → race.attempts ≡ before ++ ip ∷ after
      → accepts ip ≡ false
      → Standing ips race
      → Standing ips (record race { attempts = before ++ after })
  failed-Standing ips race before after ip split refused (undecided no_result armed waits same) =
      undecided no_result armed waits
        (sym (some_accepts-without before after ip refused) ∙ sym (ap some_accepts split) ∙ same)
  failed-Standing ips race before after ip split refused
        (decided ip' won cancelled main ok_ip found) =
      decided ip' won cancelled main ok_ip found

  Step-Holds :
      (ips : List Ip) (race next : Race Ip)
      → Step accepts race next
      → Holds ips race
      → Holds ips next
  Step-Holds ips race next (succeeds before after ip split accepted same) (standing, each) =
      let (found, others) =
        All-split (λ x. IsIn x ips) before after ip (subst (All (λ x. IsIn x ips)) split each) in
      let left = record race { attempts = before ++ after } in
      subst (Holds ips) (sym same) (
        succeeded-Standing ips race ip (before ++ after) accepted found standing,
        subst (All (λ x. IsIn x ips)) (sym (attempts-succeeded ip left)) others,
      )
  Step-Holds ips race next (fails before after ip split refused same) (standing, each) =
      let (found, others) =
        All-split (λ x. IsIn x ips) before after ip (subst (All (λ x. IsIn x ips)) split each) in
      subst (Holds ips) (sym same)
        (failed-Standing ips race before after ip split refused standing, others)
  Step-Holds ips race next (resumes cancelled waits same) (standing, each) =
      subst (Holds ips) (sym same) (
        resumed-Standing ips race cancelled standing,
        subst (All (λ x. IsIn x ips)) (sym (attempts-resumed race)) each,
      )

  pub Steps-Holds :
      (ips : List Ip) (n : ℕ) (race : Race Ip)
      → Steps accepts (spawn_attempts ips) n race
      → Holds ips race
  Steps-Holds ips n race here = (undecided refl refl refl refl, every_one-IsIn ips)
  Steps-Holds ips n race (then_step {n = m} {s = s} steps step) =
      Step-Holds ips s race step (Steps-Holds ips m s steps)

  -- However the attempts are interleaved, `connect_address` waits, or has the socket of one of the
  -- addresses, which accepts; it never throws that all tries have failed.
  pub Steps-connected :
      (ips : List Ip) (n : ℕ) (race : Race Ip)
      → Steps accepts (spawn_attempts ips) n race
      → (race.main ≡ waiting)
        ⊎ ((ip : Ip) × (race.main ≡ connected ip) × (accepts ip ≡ true) × IsIn ip ips)
  Steps-connected ips n race steps = by_standing (Steps-Holds ips n race steps).0
    where
      by_standing :
          Standing ips race
          → (race.main ≡ waiting)
            ⊎ ((ip : Ip) × (race.main ≡ connected ip) × (accepts ip ≡ true) × IsIn ip ips)
      by_standing (undecided no_result armed waits same) = inl waits
      by_standing (decided ip won cancelled (inl waits) accepted found) = inl waits
      by_standing (decided ip won cancelled (inr has) accepted found) =
          inr (ip, has, accepted, found)

-- ===== src/Tcp/Outcomes.antt =====
-- How the race ends: every run is short, and at its end `connect_address` has a socket if any
-- address accepts, and waits for ever if none does.
use cppsong.Base.{
  ℕ, ◌+◌, ◌≤◌, ◌≡◌, refl, sym, subst, ap, Bool, true, false, Bool-cases, inl, inr, List, [], ◌∷◌,
  ◌++◌, Option, none, some, arith,
}
use cppsong.Base.Lists.{length, length-append}
use cppsong.Tcp.{
  Main, waiting, connected, all_failed, Race, spawn_attempts, attempt_succeeded, main_resumed, Step,
  succeeds, fails, resumes, Steps, here, then_step,
}
use cppsong.Tcp.Winner.{
  IsIn, some_accepts, some_accepts-IsIn, Standing, undecided, decided, Steps-Holds,
  attempts-succeeded, attempts-resumed,
}

module _ {Ip : Type 0} where
  -- How many resumptions of `connect_address` are left.
  abbrev open_main : Main Ip → ℕ
  open_main waiting = 1
  open_main (connected ip) = 0
  open_main all_failed = 0

  abbrev budget : Race Ip → ℕ
  budget race = length race.attempts + open_main race.main

  main-succeeded : (ip : Ip) (race : Race Ip) → (attempt_succeeded ip race).main ≡ race.main
  unfolding attempt_succeeded
  main-succeeded ip race = by_result race.result
    where
      by_result :
          (r : Option Ip)
          → (elim r as (λ x. Race Ip) [
            | some socket ↦ race
            | none ↦ record race { result = some ip; timer_cancelled = true }
          ]).main
            ≡ race.main
      by_result none = refl
      by_result (some socket) = refl

  open_main-resumed : (race : Race Ip) → open_main (main_resumed race).main ≡ 0
  unfolding main_resumed
  open_main-resumed race = by_result race.result
    where
      by_result :
          (r : Option Ip)
          → open_main
              (elim r as (λ x. Race Ip) [
                | none ↦ record race { main = all_failed }
                | some socket ↦ record race { main = connected socket }
              ]).main
            ≡ 0
      by_result none = refl
      by_result (some socket) = refl

module _ {Ip : Type 0} (accepts : Ip → Bool) where
  Step-budget : (race next : Race Ip) → Step accepts race next → budget next + 1 ≡ budget race
  Step-budget race next (succeeds before after ip split accepted same) =
      let left = record race { attempts = before ++ after } in
      subst (λ (r : Race Ip). budget r + 1 ≡ budget race) (sym same)
        (omega (
          arith,
          ap length (attempts-succeeded accepts ip left),
          ap open_main (main-succeeded ip left),
          ap length split,
          length-append before (ip ∷ after),
          length-append before after,
        ))
  Step-budget race next (fails before after ip split refused same) =
      subst (λ (r : Race Ip). budget r + 1 ≡ budget race) (sym same)
        (omega
          (arith, ap length split, length-append before (ip ∷ after), length-append before after))
  Step-budget race next (resumes cancelled waits same) =
      subst (λ (r : Race Ip). budget r + 1 ≡ budget race) (sym same)
        (omega (
          arith,
          ap length (attempts-resumed accepts race),
          open_main-resumed race,
          ap open_main waits,
        ))

  Steps-budget :
      (ips : List Ip) (n : ℕ) (race : Race Ip)
      → Steps accepts (spawn_attempts ips) n race
      → n + budget race ≡ length ips + 1
  Steps-budget ips n race here = omega arith
  Steps-budget ips n race (then_step {n = m} {s = s} steps step) =
      omega (arith, Steps-budget ips m s steps, Step-budget s race step)

  -- No coroutine can go on.
  abbrev pub IsFinal : Race Ip → Type 0
  IsFinal race = (next : Race Ip) → Step accepts race next → ⊥

  IsFinal-attempts : (race : Race Ip) → IsFinal race → race.attempts ≡ []
  IsFinal-attempts race final = by_attempts race.attempts refl
    where
      by_attempts : (attempts : List Ip) → race.attempts ≡ attempts → attempts ≡ []
      by_attempts [] e = refl
      by_attempts (ip ∷ ips) e = elim (Bool-cases (accepts ip)) [
        | inl accepted ↦ absurd (final _ (succeeds [] ips ip e accepted refl))
        | inr refused ↦ absurd (final _ (fails [] ips ip e refused refl))
      ]

  -- When some address accepts, a run of the coroutines that can go no further has given
  -- `connect_address` the socket of an address that accepts, in at most one step more than there
  -- are addresses.
  pub Steps-IsFinal :
      (ips : List Ip) (n : ℕ) (race : Race Ip)
      → some_accepts accepts ips ≡ true
      → Steps accepts (spawn_attempts ips) n race
      → IsFinal race
      → (ip : Ip) × (race.main ≡ connected ip)
        × (accepts ip ≡ true)
        × IsIn ip ips
        × (n ≤ length ips + 1)
  unfolding some_accepts
  Steps-IsFinal ips n race chance steps final = by_standing (Steps-Holds accepts ips n race steps).0
    where
      short : n ≤ length ips + 1
      short = omega (arith, Steps-budget ips n race steps)

      by_standing :
          Standing accepts ips race
          → (ip : Ip) × (race.main ≡ connected ip)
            × (accepts ip ≡ true)
            × IsIn ip ips
            × (n ≤ length ips + 1)
      by_standing (undecided no_result armed waits same) =
          absurd (cc (ap (some_accepts accepts) (IsFinal-attempts race final)))
      by_standing (decided ip won cancelled (inl waits) accepted found) =
          absurd (final _ (resumes cancelled waits refl))
      by_standing (decided ip won cancelled (inr has) accepted found) =
          (ip, has, accepted, found, short)

  -- When no address accepts, or there is none, `connect_address` waits in every state: no run makes
  -- it throw or return.
  pub Steps-waiting :
      (ips : List Ip) (n : ℕ) (race : Race Ip)
      → some_accepts accepts ips ≡ false
      → Steps accepts (spawn_attempts ips) n race
      → race.main ≡ waiting
  Steps-waiting ips n race chance steps = by_standing (Steps-Holds accepts ips n race steps).0
    where
      by_standing : Standing accepts ips race → race.main ≡ waiting
      by_standing (undecided no_result armed waits same) = waits
      by_standing (decided ip won cancelled main accepted found) =
          absurd (cc (some_accepts-IsIn accepts ips ip accepted found))

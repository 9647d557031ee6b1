-- ===== src/Tcp/Examples.antt =====
-- Races of two addresses, which are numbers.
use cppsong.Base.{ℕ, ◌+◌, ◌≤◌, ◌≡◌, refl, Bool, true, false, List, [], ◌∷◌, none, some, ◌==◌}
use cppsong.Base.Lists.{length}
use cppsong.Tcp.{
  waiting, connected, Race, spawn_attempts, attempt_succeeded, main_resumed, succeeds, fails,
  resumes, Steps, here, then_step,
}
use cppsong.Tcp.Outcomes.{IsFinal, Steps-IsFinal, Steps-waiting}
use cppsong.Tcp.Winner.{IsIn, some_accepts}

abbrev ips : List ℕ
ips = 1 ∷ 2 ∷ []

-- The second address accepts.
abbrev accepts : ℕ → Bool
accepts ip = ip == 2

-- The first attempt fails, the second succeeds, and `connect_address` goes on.
abbrev ended : Race ℕ
ended = record { attempts = []; result = some 2; timer_cancelled = true; main = connected 2 }

run_to_end : Steps accepts (spawn_attempts ips) 3 ended
unfolding attempt_succeeded main_resumed
run_to_end =
    then_step
      (then_step (then_step here (fails [] (2 ∷ []) 1 refl refl refl))
        (succeeds [] [] 2 refl refl refl))
      (resumes refl refl refl)

ended-IsFinal : IsFinal accepts ended
ended-IsFinal next (succeeds [] after ip split accepted same) = cc
ended-IsFinal next (succeeds (b ∷ before) after ip split accepted same) = cc
ended-IsFinal next (fails [] after ip split refused same) = cc
ended-IsFinal next (fails (b ∷ before) after ip split refused same) = cc
ended-IsFinal next (resumes cancelled waits same) = cc

Steps-IsFinal_example :
    (ip : ℕ) × (ended.main ≡ connected ip)
    × (accepts ip ≡ true)
    × IsIn ip ips
    × (3 ≤ length ips + 1)
unfolding some_accepts
Steps-IsFinal_example = Steps-IsFinal accepts ips 3 ended refl run_to_end ended-IsFinal

-- The only address refuses.
abbrev stuck : Race ℕ
stuck = record { attempts = []; result = none; timer_cancelled = false; main = waiting }

run_to_stuck : Steps accepts (spawn_attempts (1 ∷ [])) 1 stuck
run_to_stuck = then_step here (fails [] [] 1 refl refl refl)

Steps-waiting_example : stuck.main ≡ waiting
unfolding some_accepts
Steps-waiting_example = Steps-waiting accepts (1 ∷ []) 1 stuck refl run_to_stuck

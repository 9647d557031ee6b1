-- ===== src/Stoul/Examples.antt =====
-- Runs of the model of `std::stoul`.
use cppsong.Base.{◌≡◌, refl}
use cppsong.Base.Outcome.{ok, throw, invalid_argument, out_of_range}
use cppsong.Base.Text.{codes}
use cppsong.Stoul.{stoul}

stoul_runs :
    (stoul 10 (codes " 24x") ≡ ok 24)
    × (stoul 10 (codes "x") ≡ throw invalid_argument)
    × (stoul 10 (codes "18446744073709551616") ≡ throw out_of_range)
    × (stoul 10 (codes "-1") ≡ ok 18446744073709551615)
    × (stoul 16 (codes "fF") ≡ ok 255)
    × (stoul 16 (codes "0x") ≡ ok 0)
    × (stoul 16 (codes "+a") ≡ ok 10)
    × (stoul 16 (codes "0xa") ≡ ok 10)
unfolding stoul
stoul_runs = (refl, refl, refl, refl, refl, refl, refl, refl)

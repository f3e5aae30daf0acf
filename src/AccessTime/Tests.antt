-- ===== src/AccessTime/Tests.antt =====
-- C/access_time.c on concrete inputs: two valid measurements and one that ran backwards.
use linux_riscv.Prelude.{◌≡◌, refl, List, [], ◌∷◌, some, none}
use linux_riscv.AccessTime.{Sample, difference}

abbrev samples : List Sample
samples =
    record { start = 10; end = 14 }
    ∷ record { start = 20; end = 19 }
    ∷ record { start = 30; end = 36 }
    ∷ []

difference_test : (difference 100 40 ≡ some 60) × (difference 30 40 ≡ none)
unfolding difference
difference_test = (refl, refl)

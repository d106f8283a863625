-- ===== src/Frontend/Bending.antt =====
-- The frequencies that dvb_bend_frequency tries.
use tuxbox_git_driver.Common.{ℕ, ◌≡◌, refl, List, true, false, if◌then◌else◌, arith}
use tuxbox_git_driver.Common.Int.{ℤ, pos, ◌+ℤ◌, ◌-ℤ◌}
use tuxbox_git_driver.Frontend.{Neighbour}
use tuxbox_git_driver.Frontend.Tune.{any_conflict, bend}

back_to_zero : (s : ℤ) → pos 0 -ℤ s +ℤ s ≡ pos 0
unfolding ◌+ℤ◌ ◌-ℤ◌
back_to_zero s = ground arith

from_zero : (s : ℤ) → pos 0 +ℤ s ≡ s
unfolding ◌+ℤ◌
from_zero s = ground arith

zero_turned : pos 0 -ℤ pos 0 ≡ pos 0
unfolding ◌-ℤ◌
zero_turned = refl

-- The search of dvb_bend_frequency, whatever the other front-ends: it tries the frequency as it is, a
-- step above it and a step below it, and takes the first of them where no other front-end is near. It
-- tries no other frequency: where all three are taken it gives up, a step below.
pub bend_lem :
    (adapter_num : ℕ) (s base : ℤ) (fes : List Neighbour)
    → bend 11 adapter_num s base fes (pos 0) ≡ (
        if any_conflict adapter_num s (base +ℤ pos 0) fes
        then (if any_conflict adapter_num s (base +ℤ s) fes
            then (
              pos 0 -ℤ s,
              if any_conflict adapter_num s (base +ℤ (pos 0 -ℤ s)) fes then false else true,
            )
            else (s, true))
        else (pos 0, true))
unfolding bend
bend_lem n s base fes =
    rw
      (
        zero_turned,
        from_zero s,
        back_to_zero s,
        zero_turned,
        from_zero s,
        back_to_zero s,
        zero_turned,
        from_zero s,
      )
      (ground arith)

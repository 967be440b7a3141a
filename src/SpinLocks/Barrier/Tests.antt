-- ===== src/SpinLocks/Barrier/Tests.antt =====
-- A round of four that crosses the overflow of the counter, and a round of three that does not survive it.
use libfibre.Base.{ℕ, ◌+◌, ◌-◌, ◌%◌, ◌^◌, ◌≡◌, refl, true, false, ◌==◌, ltb, inr, arith}
use libfibre.SpinLocks.Barrier.{arrive, goal, waits, is_serial}
use libfibre.SpinLocks.Barrier.Passing.{arrived, goal-waits}

abbrev last : ℕ
last = 2 ^ 64 - 1

crossing :
    ((arrive last).1 ≡ 0)
    × (goal 4 last ≡ 0)
    × (goal 4 0 ≡ 4)
    × (waits 4 3 ≡ true)
    × (waits 4 4 ≡ false)
unfolding arrive goal waits
crossing = (refl, refl, refl, refl, refl)

-- The ticket before the overflow is the first of its round, and those after it begin another.
misaligned : (goal 3 last ≡ 2) × (goal 3 0 ≡ 3) × (goal 3 1 ≡ 3) × (is_serial 1 3 ≡ false)
unfolding goal is_serial
misaligned = (refl, refl, refl, refl)

goal-waits_example :
    (waits (goal 4 (arrive (arrived 6)).0) (arrived (6 + 1 + 1)) ≡ ltb (6 % 4 + 1 + 1) 4)
    × (is_serial (arrive (arrived 6)).0 (goal 4 (arrive (arrived 6)).0) ≡ (6 % 4 + 1 == 4))
goal-waits_example = goal-waits 4 6 1 (omega arith) (omega arith) (omega arith) (inr (2 ^ 62, refl))

-- ===== src/SpinLocks/Owner/Tests.antt =====
-- A thread that has acquired twice, and the theorems there.
use libfibre.Base.{◌≡◌, refl}
use libfibre.SpinLocks.Owner.{
  System, outside, claim, count, Reach, here, later, test, win, enter, again,
}

nested : (s : System) × Reach s × (s.pc 3 ≡ outside) × (s.depth 3 ≡ 2) × (s.calls ≡ 2)
unfolding claim count
nested = (
  _,
  later
      (later (later (later (later here (test 3 refl refl)) (win 3 refl refl)) (enter 3 refl))
        (again 3 refl refl))
      (enter 3 refl),
  refl,
  refl,
  refl,
)

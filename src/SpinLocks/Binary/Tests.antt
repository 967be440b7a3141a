-- ===== src/SpinLocks/Binary/Tests.antt =====
-- One thread inside and another in its loop.
use libfibre.Base.{refl, true, [], ◌∷◌, ◌++◌}
use libfibre.SpinLocks.Binary.{
  test_and_set, System, init, go, acquiring, holding, Reach, here, later, begin, attempt, retry,
}

abbrev inside : System
inside = go 1 holding (record (go 1 acquiring init) { locked = true; holders = [] ++ 1 ∷ [] })

contended : Reach (go 2 acquiring inside)
unfolding test_and_set
contended =
    later (later (later (later here (begin 1 refl)) (attempt 1 true refl refl)) (begin 2 refl))
      (retry 2 true refl refl)

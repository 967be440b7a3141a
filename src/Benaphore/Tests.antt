-- ===== src/Benaphore/Tests.antt =====
-- A binary benaphore that a thread passes, at which another blocks, and that is opened again.
use libfibre.Base.{◌≡◌, refl, true, false}
use libfibre.Base.Int.{pos, negsuc}
use libfibre.Benaphore.{p, v_round, rounds, System, down, begin, retry, Reach, here, later}

crowded : (s : System) × Reach true 1 s × (s.pc 3 ≡ rounds (negsuc 0)) × (s.counter ≡ negsuc 0)
unfolding p v_round
crowded = (
  _,
  later
      (later
        (later (later here (down 1 true (pos 0) refl refl)) (down 2 false (negsuc 0) refl refl))
        (begin 3 refl refl))
      (retry 3 (pos 0) (negsuc 0) (negsuc 0) refl refl),
  refl,
  refl,
)

-- ===== src/Time/Tests.antt =====
-- Two times of half a second and more, and the theorems there.
use libfibre.Base.{◌≡◌, refl, false, arith}
use libfibre.Base.Int.{pos, ◌+ℤ◌}
use libfibre.Time.{Time, to_ns, add}
use libfibre.Time.Carries.{Normal}
use libfibre.Time.Arithmetic.{is_normal, full_second}

abbrev half : Time
half = record { sec = pos 3; nsec = pos 500000000 }

abbrev more : Time
more = record { sec = pos 1; nsec = pos 700000000 }

half-Normal : Normal half
half-Normal = (refl, omega arith)

more-Normal : Normal more
more-Normal = (refl, omega arith)

full_second_example :
    (to_ns (add half half) ≡ to_ns half +ℤ to_ns half) × (is_normal (add half half) ≡ false)
full_second_example = full_second half half half-Normal half-Normal

-- ===== src/Time.antt =====
-- class Time of src/runtime/Basics.h: its conversions, sums, differences and comparisons.
pub mod Carries
pub mod Arithmetic
mod Tests
use libfibre.Base.{ℕ, ◌*◌, ◌+◌, ◌-◌, ◌/◌, ◌%◌, Bool, true, false, ◌&&◌, if◌then◌else◌}
use libfibre.Base.Int.{ℤ, pos, negsuc, pos_part, neg_part, sub_ℕ, ◌+ℤ◌, ◌-ℤ◌, ltb_ℤ, leb_ℤ, eqb_ℤ}

abbrev pub nsec_per_sec : ℕ
nsec_per_sec = 1000000000

pub record Time : Type 0 where
  pub sec : ℤ
  pub nsec : ℤ

-- Multiplication by a positive constant, and C's division and remainder by one, which truncate.
abbrev pub scale : ℕ → ℤ → ℤ
scale k z = sub_ℕ (k * pos_part z) (k * neg_part z)

abbrev pub quot : ℤ → ℕ → ℤ
quot z k = sub_ℕ (pos_part z / k) (neg_part z / k)

abbrev pub rem : ℤ → ℕ → ℤ
rem z k = sub_ℕ (pos_part z % k) (neg_part z % k)

-- `fromNS` and `toNS`; `fromUS` and `toUS`; `fromMS` and `toMS`.
unfoldable pub from_ns : ℤ → Time
from_ns ns = record { sec = quot ns 1000000000; nsec = rem ns 1000000000 }

unfoldable pub to_ns : Time → ℤ
to_ns t = scale 1000000000 t.sec +ℤ t.nsec

unfoldable pub from_us : ℤ → Time
from_us us = record { sec = quot us 1000000; nsec = scale 1000 (rem us 1000000) }

unfoldable pub to_us : Time → ℤ
to_us t = scale 1000000 t.sec +ℤ quot t.nsec 1000

unfoldable pub from_ms : ℤ → Time
from_ms ms = record { sec = quot ms 1000; nsec = scale 1000000 (rem ms 1000) }

unfoldable pub to_ms : Time → ℤ
to_ms t = scale 1000 t.sec +ℤ quot t.nsec 1000000

-- `operator+` and `operator+=`, with the test as it stands.
unfoldable pub add : Time → Time → Time
add a b =
    let n : ℤ = a.nsec +ℤ b.nsec in
    if ltb_ℤ (pos nsec_per_sec) n
    then record { sec = a.sec +ℤ b.sec +ℤ pos 1; nsec = n -ℤ pos nsec_per_sec }
    else record { sec = a.sec +ℤ b.sec; nsec = n }

-- `operator-` and `operator-=`
unfoldable pub sub : Time → Time → Time
sub a b =
    let n : ℤ = a.nsec -ℤ b.nsec in
    if ltb_ℤ n (pos 0)
    then record { sec = a.sec -ℤ b.sec -ℤ pos 1; nsec = n +ℤ pos nsec_per_sec }
    else record { sec = a.sec -ℤ b.sec; nsec = n }

-- `operator==`, `operator<` and `operator<=`; the other two are these with their arguments exchanged.
unfoldable pub eqb : Time → Time → Bool
eqb a b = eqb_ℤ a.sec b.sec && eqb_ℤ a.nsec b.nsec

unfoldable pub lt : Time → Time → Bool
lt a b = if eqb_ℤ a.sec b.sec then ltb_ℤ a.nsec b.nsec else ltb_ℤ a.sec b.sec

unfoldable pub le : Time → Time → Bool
le a b = if eqb_ℤ a.sec b.sec then leb_ℤ a.nsec b.nsec else leb_ℤ a.sec b.sec

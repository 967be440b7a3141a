-- ===== src/Time/Arithmetic.antt =====
-- The operations on times agree with those on nanoseconds.
use libfibre.Base.{◌≤◌, ◌≡◌, Bool, not, ◌&&◌, arith}
use libfibre.Base.Int.{ℤ, pos, pos_part, neg_part, ◌+ℤ◌, ◌-ℤ◌, ltb_ℤ, leb_ℤ, eqb_ℤ}
use libfibre.Time.{Time, from_ns, to_ns, from_us, to_us, from_ms, to_ms, add, sub, eqb, lt, le}
use libfibre.Time.Carries.{Normal, sum_law, difference_law}

-- The sum of two normal times is that of their nanoseconds, and its own nanoseconds are not negative
-- and at most a second.
pub to_ns-add :
    (a b : Time)
    → Normal a
    → Normal b
    → (to_ns (add a b) ≡ to_ns a +ℤ to_ns b)
      × (neg_part (add a b).nsec ≡ 0)
      × (pos_part (add a b).nsec ≤ 1000000000)
to_ns-add a b p q = sum_law a.sec b.sec a.nsec b.nsec p q

-- The difference of two normal times is that of their nanoseconds, and it is normal.
pub to_ns-sub :
    (a b : Time) → Normal a → Normal b → (to_ns (sub a b) ≡ to_ns a -ℤ to_ns b) × Normal (sub a b)
to_ns-sub a b p q = difference_law a.sec b.sec a.nsec b.nsec p q

-- The nanoseconds are at least 0 and less than a second.
abbrev pub is_normal : Time → Bool
is_normal t = leb_ℤ (pos 0) t.nsec && ltb_ℤ t.nsec (pos 1000000000)

-- The sum of two normal times has the sum of their nanoseconds. It is normal itself, except if the two fields
-- of nanoseconds add up to exactly a second, which is not carried.
pub full_second :
    (a b : Time)
    → Normal a
    → Normal b
    → (to_ns (add a b) ≡ to_ns a +ℤ to_ns b)
      × (is_normal (add a b) ≡ not (eqb_ℤ (a.nsec +ℤ b.nsec) (pos 1000000000)))
unfolding add
full_second a b p q = ((to_ns-add a b p q).0, ground (arith, p, q))

-- The comparisons of normal times are those of their nanoseconds.
pub to_ns-order :
    (a b : Time)
    → Normal a
    → Normal b
    → (lt a b ≡ ltb_ℤ (to_ns a) (to_ns b))
      × (le a b ≡ leb_ℤ (to_ns a) (to_ns b))
      × (eqb a b ≡ eqb_ℤ (to_ns a) (to_ns b))
unfolding to_ns lt le eqb
to_ns-order a b p q = (ground (arith, p, q), ground (arith, p, q), ground (arith, p, q))

-- Times made from nanoseconds, microseconds or milliseconds convert back to the same number.
pub time_round_trips :
    (z : ℤ) → (to_ns (from_ns z) ≡ z) × (to_us (from_us z) ≡ z) × (to_ms (from_ms z) ≡ z)
unfolding to_ns from_ns to_us from_us to_ms from_ms
time_round_trips z = (ground arith, ground arith, ground arith)

-- ===== src/Time/Carries.antt =====
-- Sums and differences of times, with their carries.
use libfibre.Base.{ℕ, ◌*◌, ◌+◌, ◌-◌, ◌≤◌, ◌<◌, ◌≡◌, refl, ap, ◌∙◌, inl, inr, arith, Bool-cases, ltb}
use libfibre.Base.Int.{ℤ, pos, negsuc, pos_part, neg_part, sub_ℕ, ◌+ℤ◌, ◌-ℤ◌}
use libfibre.Time.{Time, scale, to_ns, add, sub}

-- A time as the system keeps it: less than a second of nanoseconds.
abbrev pub Normal : Time → Type 0
Normal t = (neg_part t.nsec ≡ 0) × (pos_part t.nsec < 1000000000)

-- z is a - b.
abbrev Difference : ℤ → ℕ → ℕ → Type 0
Difference z a b = pos_part z + b ≡ neg_part z + a

sub_ℕ-Difference : (a b : ℕ) → Difference (sub_ℕ a b) a b
sub_ℕ-Difference a b = ground arith

same : (x y : ℤ) → pos_part x + neg_part y ≡ pos_part y + neg_part x → x ≡ y
same x y h = ground arith

offset :
    (z n : ℤ) (a b : ℕ) → Difference z a b → Difference (z +ℤ n) (a + pos_part n) (b + neg_part n)
offset z n a b h =
    omega (arith, h, sub_ℕ-Difference (pos_part z + pos_part n) (neg_part z + neg_part n))

to_ns-Difference :
    (t : Time)
    → Difference
        (to_ns t)
        (1000000000 * pos_part t.sec + pos_part t.nsec)
        (1000000000 * neg_part t.sec + neg_part t.nsec)
unfolding to_ns
to_ns-Difference t =
    offset (scale 1000000000 t.sec) t.nsec _ _
      (sub_ℕ-Difference (1000000000 * pos_part t.sec) (1000000000 * neg_part t.sec))

-- The carries: k is 1 if a second is carried over, else 0.
carrying :
    (x y s : ℤ) (k u v w : ℕ) (p q r z : ℤ)
    → Difference s (pos_part x + pos_part y + k) (neg_part x + neg_part y)
    → w + 1000000000 * k ≡ u + v
    → Difference p (1000000000 * pos_part x + u) (1000000000 * neg_part x)
    → Difference q (1000000000 * pos_part y + v) (1000000000 * neg_part y)
    → Difference r (1000000000 * pos_part s + w) (1000000000 * neg_part s)
    → Difference z (pos_part p + pos_part q) (neg_part p + neg_part q)
    → r ≡ z
carrying x y s k u v w p q r z a b c d e f = same r z (omega (arith, a, b, c, d, e, f))

borrowing :
    (x y s : ℤ) (k u v w : ℕ) (p q r z : ℤ)
    → Difference s (pos_part x + neg_part y) (neg_part x + pos_part y + k)
    → w + v ≡ u + 1000000000 * k
    → Difference p (1000000000 * pos_part x + u) (1000000000 * neg_part x)
    → Difference q (1000000000 * pos_part y + v) (1000000000 * neg_part y)
    → Difference r (1000000000 * pos_part s + w) (1000000000 * neg_part s)
    → Difference z (pos_part p + neg_part q) (neg_part p + pos_part q)
    → r ≡ z
borrowing x y s k u v w p q r z a b c d e f = same r z (omega (arith, a, b, c, d, e, f))

-- Times whose nanoseconds are not negative.
abbrev at : ℤ → ℕ → Time
at x u = record { sec = x; nsec = pos u }

carry_cases :
    (x y : ℤ) (u v : ℕ)
    → (k : ℕ) × (s : ℤ) × (w : ℕ) × (add (at x u) (at y v) ≡ at s w)
      × Difference s (pos_part x + pos_part y + k) (neg_part x + neg_part y)
      × (w + 1000000000 * k ≡ u + v)
      × (u < 1000000000 → v < 1000000000 → w ≤ 1000000000)
unfolding add
carry_cases x y u v = elim (Bool-cases (ltb 1000000000 (u + v))) [
  | inl e ↦ (
    1,
    x +ℤ y +ℤ pos 1,
    u + v - 1000000000,
    ground (arith, e),
    omega (
      arith,
      sub_ℕ-Difference (pos_part x + pos_part y) (neg_part x + neg_part y),
      sub_ℕ-Difference (pos_part (x +ℤ y) + 1) (neg_part (x +ℤ y) + 0),
    ),
    ground (arith, e),
    λ p q. ground (arith, e),
  )
  | inr e ↦ (
    0,
    x +ℤ y,
    u + v,
    ground (arith, e),
    omega (arith, sub_ℕ-Difference (pos_part x + pos_part y) (neg_part x + neg_part y)),
    omega arith,
    λ p q. ground (arith, e),
  )
]

borrow_cases :
    (x y : ℤ) (u v : ℕ)
    → u < 1000000000
    → v < 1000000000
    → (k : ℕ) × (s : ℤ) × (w : ℕ) × (sub (at x u) (at y v) ≡ at s w)
      × Difference s (pos_part x + neg_part y) (neg_part x + pos_part y + k)
      × (w + v ≡ u + 1000000000 * k)
      × (w < 1000000000)
unfolding sub
borrow_cases x y u v p q = elim (Bool-cases (ltb u v)) [
  | inl e ↦ (
    1,
    x -ℤ y -ℤ pos 1,
    u + 1000000000 - v,
    ground (arith, e, p, q),
    omega (
      arith,
      sub_ℕ-Difference (pos_part x + neg_part y) (neg_part x + pos_part y),
      sub_ℕ-Difference (pos_part (x -ℤ y) + 0) (neg_part (x -ℤ y) + 1),
    ),
    ground (arith, e, p, q),
    ground (arith, e, p, q),
  )
  | inr e ↦ (
    0,
    x -ℤ y,
    u - v,
    ground (arith, e, p, q),
    omega (arith, sub_ℕ-Difference (pos_part x + neg_part y) (neg_part x + pos_part y)),
    ground (arith, e, p, q),
    ground (arith, e, p, q),
  )
]

-- In terms of seconds and nanoseconds.
abbrev pub Sums : Time → Time → Type 0
Sums a b =
    (to_ns (add a b) ≡ to_ns a +ℤ to_ns b)
    × (neg_part (add a b).nsec ≡ 0)
    × (pos_part (add a b).nsec ≤ 1000000000)

abbrev pub Differs : Time → Time → Type 0
Differs a b = (to_ns (sub a b) ≡ to_ns a -ℤ to_ns b) × Normal (sub a b)

to_ns-Difference_parts :
    (x : ℤ) (u : ℕ)
    → Difference (to_ns (at x u)) (1000000000 * pos_part x + u) (1000000000 * neg_part x)
to_ns-Difference_parts x u = omega (arith, to_ns-Difference (at x u))

sum_of_parts : (x y : ℤ) (u v : ℕ) → u < 1000000000 → v < 1000000000 → Sums (at x u) (at y v)
sum_of_parts x y u v p q =
    let (k, s, w, e, d, c, l) = carry_cases x y u v in
    (
      ap to_ns e
          ∙ carrying x y s k u v w (to_ns (at x u)) (to_ns (at y v)) (to_ns (at s w)) _ d c
              (to_ns-Difference_parts x u) (to_ns-Difference_parts y v) (to_ns-Difference_parts s w)
              (sub_ℕ-Difference _ _),
      ap (λ t. neg_part t.nsec) e,
      rw e (l p q),
    )

difference_of_parts :
    (x y : ℤ) (u v : ℕ) → u < 1000000000 → v < 1000000000 → Differs (at x u) (at y v)
difference_of_parts x y u v p q =
    let (k, s, w, e, d, c, l) = borrow_cases x y u v p q in
    (
      ap to_ns e
          ∙ borrowing x y s k u v w (to_ns (at x u)) (to_ns (at y v)) (to_ns (at s w)) _ d c
              (to_ns-Difference_parts x u) (to_ns-Difference_parts y v) (to_ns-Difference_parts s w)
              (sub_ℕ-Difference _ _),
      rw e (refl, l),
    )

pub sum_law :
    (x y n m : ℤ)
    → Normal (record { sec = x; nsec = n })
    → Normal (record { sec = y; nsec = m })
    → Sums (record { sec = x; nsec = n }) (record { sec = y; nsec = m })
sum_law x y (pos u) (pos v) p q = sum_of_parts x y u v p.1 q.1
sum_law x y (pos u) (negsuc v) p q = absurd (omega (arith, q))
sum_law x y (negsuc u) m p q = absurd (omega (arith, p))

pub difference_law :
    (x y n m : ℤ)
    → Normal (record { sec = x; nsec = n })
    → Normal (record { sec = y; nsec = m })
    → Differs (record { sec = x; nsec = n }) (record { sec = y; nsec = m })
difference_law x y (pos u) (pos v) p q = difference_of_parts x y u v p.1 q.1
difference_law x y (pos u) (negsuc v) p q = absurd (omega (arith, q))
difference_law x y (negsuc u) m p q = absurd (omega (arith, p))

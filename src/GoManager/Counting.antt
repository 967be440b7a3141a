-- ===== src/GoManager/Counting.antt =====
-- The number of the processors that are at one of several places.
use libfibre.Base.{
  ℕ, ◌+◌, ◌≤◌, ◌≡◌, refl, Bool, true, false, ◌||◌, List, [], ◌∷◌, ◌==◌, if◌then◌else◌, update,
  length, mem, Distinct, arith, Bool-cases, inl, inr,
}

abbrev pub one_if : Bool → ℕ
one_if b = if b then 1 else 0

module _ {ℓ} {A : Type ℓ} (test : A → Bool) where
  abbrev pub count : (ℕ → A) → List ℕ → ℕ
  count place [] = 0
  count place (p ∷ ps) = one_if (test (place p)) + count place ps

  pub count-le-length : (place : ℕ → A) (ps : List ℕ) → count place ps ≤ length ps
  count-le-length place [] = omega arith
  count-le-length place (p ∷ ps) = elim (Bool-cases (test (place p))) [
    | inl e ↦ rw e (omega (arith, count-le-length place ps))
    | inr e ↦ rw e (omega (arith, count-le-length place ps))
  ]

  count-update_out :
      (place : ℕ → A) (i : ℕ) (a : A) (ps : List ℕ)
      → mem i ps ≡ false
      → count (update place i a) ps ≡ count place ps
  count-update_out place i a [] h = refl
  count-update_out place i a (x ∷ xs) h = elim (Bool-cases (x == i)) [
    | inl e ↦ absurd (ground (arith, e, h))
    | inr e ↦ rw (e, count-update_out place i a xs (ground (arith, h))) refl
  ]

  pub count-update :
      (place : ℕ → A) (i : ℕ) (a : A) (ps : List ℕ)
      → mem i ps ≡ true
      → Distinct ps
      → count (update place i a) ps + one_if (test (place i)) ≡ count place ps + one_if (test a)
  count-update place i a [] h d = cc
  count-update place i a (x ∷ xs) h d = elim (Bool-cases (x == i)) [
    | inl e ↦
        let same : x ≡ i = ground (arith, e) in
        rw (e, same, count-update_out place i a xs (rw (← same) d.0)) (omega arith)
    | inr e ↦ rw e (omega (arith, count-update place i a xs (ground (arith, h, e)) d.1))
  ]

  -- Some processor is at such a place.
  abbrev pub has : (ℕ → A) → List ℕ → Bool
  has place [] = false
  has place (p ∷ ps) = test (place p) || has place ps

  pub has-mem :
      (place : ℕ → A) (i : ℕ) (ps : List ℕ)
      → mem i ps ≡ true
      → test (place i) ≡ true
      → has place ps ≡ true
  has-mem place i [] h t = cc
  has-mem place i (x ∷ xs) h t = elim (Bool-cases (i == x)) [
    | inl e ↦ let same : i ≡ x = ground (arith, e) in rw (← same) (rw t refl)
    | inr e ↦ let rest = has-mem place i xs (ground (arith, h, e)) t in ground (arith, rest)
  ]

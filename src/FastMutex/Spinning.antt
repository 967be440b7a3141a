-- ===== src/FastMutex/Spinning.antt =====
-- The function Spin of src/runtime/BlockingSync.h: attempts with pauses, and yields, between them.
use libfibre.Base.{
  ℕ, zero, suc, ◌+◌, ◌-◌, ◌<◌, ◌≤◌, ◌≡◌, refl, inl, inr, Bool-cases, Bool, true, false, ◌||◌,
  Option, none, some, ltb, Option-cases, if◌then◌else◌, arith,
}

-- The locals `spin`, `scnt` and `ycnt`.
pub record Counts : Type 0 where
  pub spin : ℕ
  pub scnt : ℕ
  pub ycnt : ℕ

module _ (spin_end spin_count yield_count : ℕ) where
  -- What a failed attempt leads to; `none` if `Spin` gives up.
  unfoldable pub after_failure : Counts → Option Counts
  after_failure t =
      if ltb t.scnt spin_count
      then some (
          if ltb t.spin spin_end
          then record t { spin = t.spin + t.spin }
          else record t { scnt = t.scnt + 1 })
      else if ltb t.ycnt yield_count
      then some (record t { ycnt = t.ycnt + 1 })
      else none

  abbrev followed : {A : Type 0} → Option Counts → A → (Counts → A) → A
  followed none stop go = stop
  followed (some t) stop go = go t

  -- The loop, with fuel; `tries n` is what the n-th call of `tryLock` returns. `none`: out of fuel.
  unfoldable pub spin_loop : ℕ → (tries : ℕ → Bool) → (n : ℕ) → Counts → Option Bool
  spin_loop zero tries n t = none
  spin_loop (suc k) tries n t =
      let rest = followed (after_failure t) (some false) (spin_loop k tries (suc n)) in
      if tries n then some true else rest

  unfoldable pub start : (spin_start : ℕ) → Counts
  start spin_start = record { spin = spin_start; scnt = 0; ycnt = 0 }

  -- The attempts from the n-th on, at most k of them.
  abbrev pub some_try : ℕ → (tries : ℕ → Bool) → (n : ℕ) → Bool
  some_try zero tries n = false
  some_try (suc k) tries n = tries n || some_try k tries (suc n)

  measure : Counts → ℕ
  measure t = (spin_end - t.spin) + (spin_count - t.scnt) + (yield_count - t.ycnt)

  falls :
      (t t' : Counts)
      → after_failure t ≡ some t'
      → 1 ≤ t.spin
      → (measure t' < measure t) × (1 ≤ t'.spin)
  unfolding after_failure measure
  falls t t' h p = ground (arith, h, p)

  spin_loop_step :
      (k : ℕ) (tries : ℕ → Bool) (n : ℕ) (t : Counts)
      → spin_loop (suc k) tries n t ≡ (
          if tries n
          then some true
          else followed (after_failure t) (some false) (spin_loop k tries (suc n)))
  unfolding spin_loop
  spin_loop_step k tries n t = refl

  spin_loop_ends :
      (k : ℕ) (tries : ℕ → Bool) (n : ℕ) (t : Counts)
      → 1 ≤ t.spin
      → measure t < k
      → (m : ℕ) × (m ≤ measure t) × (spin_loop k tries n t ≡ some (some_try (suc m) tries n))
  spin_loop_ends zero tries n t p h = absurd (omega arith)
  spin_loop_ends (suc k) tries n t p h = elim (Bool-cases (tries n)) [
    | inl e ↦ (0, omega arith, rw (spin_loop_step k tries n t, e) refl)
    | inr e ↦ elim (Option-cases (after_failure t)) [
      | inl g ↦ (0, omega arith, rw (spin_loop_step k tries n t, e, g) refl)
      | inr (t', g) ↦
          let (less, p') = falls t t' g p in
          let (m, le, ends) = spin_loop_ends k tries (suc n) t' p' (omega arith) in
          (suc m, omega arith, rw (spin_loop_step k tries n t, e, g) ends)
    ]
  ]

  -- From a positive start `Spin` ends after at most as many failed attempts as the three bounds allow
  -- together, and returns whether one of its attempts got the lock.
  pub spin_loop_lem :
      (spin_start : ℕ) (tries : ℕ → Bool)
      → 1 ≤ spin_start
      → (m : ℕ) × (m ≤ spin_end + spin_count + yield_count)
        × (spin_loop (suc (spin_end + spin_count + yield_count)) tries 0 (start spin_start)
            ≡ some (some_try (suc m) tries 0))
  unfolding start measure
  spin_loop_lem spin_start tries h =
      let (m, le, ends) =
        spin_loop_ends (suc (spin_end + spin_count + yield_count)) tries 0 (start spin_start) h
          (omega arith) in
      (m, omega arith, ends)

-- ===== src/SpinLocks/Barrier/Passing.antt =====
-- When a thread leaves a SpinBarrier.
use native.Mathlib.Nat.{mod-lt, mod-le, mod-eq_of_lt, mod-mod_of_dvd}
use libfibre.Base.{
  ℕ, zero, suc, refl, ap, ◌∙◌, ◌*◌, ◌⊎◌, inl, inr, ◌+◌, ◌-◌, ◌%◌, ◌^◌, ◌≤◌, ◌<◌, ◌≡◌, ◌==◌, ltb,
  arith,
}
use libfibre.SpinLocks.Barrier.{arrive, goal, waits, is_serial}

module _ (target cnt r j : ℕ) (le : r ≤ cnt) (lt : r < target) (small : target < 2 ^ 62) where
  waits_rest :
      cnt < 2 ^ 64
      → j < 2 ^ 62
      → waits ((cnt + target - r) % 2 ^ 64) ((cnt + 1 + j) % 2 ^ 64) ≡ ltb (r + 1 + j) target
  unfolding waits
  waits_rest big few = ground arith

  serial_rest : cnt < 2 ^ 64 → is_serial cnt ((cnt + target - r) % 2 ^ 64) ≡ (r + 1 == target)
  unfolding is_serial
  serial_rest big = ground arith

-- The counter once k threads have arrived.
unfoldable pub arrived : ℕ → ℕ
unfolding arrive
arrived zero = 0
arrived (suc k) = (arrive (arrived k)).1

arrived_lem : (k : ℕ) → arrived k ≡ k % 2 ^ 64
unfolding arrived arrive
arrived_lem zero = refl
arrived_lem (suc k) = omega (arith, arrived_lem k)

-- Rounds go on across the overflow if they divide it.
place_in_round :
    (target k : ℕ)
    → (k < 2 ^ 64) ⊎ ((c : ℕ) × (2 ^ 64 ≡ target * c))
    → k % 2 ^ 64 % target ≡ k % target
place_in_round target k (inl l) = ap (λ n. n % target) (mod-eq_of_lt l)
place_in_round target k (inr (c, e)) = mod-mod_of_dvd _ k ∣ (c, e) ∣₁

-- Let the k-th arrival, counted from 0, come before the counter overflows, or let the number `target` of
-- threads divide 2 ^ 64, and let `target` and j be less than 2 ^ 62. When j more have arrived behind it, the
-- thread is held in the loop exactly if its round, of `target` arrivals each from the very first on, is not
-- complete; and it is the serial one exactly if it is the last of its round.
pub goal-waits :
    (target k j : ℕ)
    → 0 < target
    → target < 2 ^ 62
    → j < 2 ^ 62
    → (k < 2 ^ 64) ⊎ ((c : ℕ) × (2 ^ 64 ≡ target * c))
    → let cnt : ℕ = (arrive (arrived k)).0 in
      (waits (goal target cnt) (arrived (k + 1 + j)) ≡ ltb (k % target + 1 + j) target)
      × (is_serial cnt (goal target cnt) ≡ (k % target + 1 == target))
unfolding goal arrive
goal-waits target k j pos small few whole =
    let place = place_in_round target k whole in
    let big : k % 2 ^ 64 < 2 ^ 64 = omega arith in
    let now : arrived (k + 1 + j) ≡ (k % 2 ^ 64 + 1 + j) % 2 ^ 64 =
      arrived_lem (k + 1 + j) ∙ omega arith in
    rw (now, arrived_lem k, ← place)
      (
        waits_rest target (k % 2 ^ 64) (k % 2 ^ 64 % target) j (mod-le (k % 2 ^ 64) target)
            (mod-lt (k % 2 ^ 64) pos) small big few,
        serial_rest target (k % 2 ^ 64) (k % 2 ^ 64 % target) j (mod-le (k % 2 ^ 64) target)
            (mod-lt (k % 2 ^ 64) pos) small big,
      )

-- ===== src/Bitmap/Count.antt =====
-- The number of a bitmap's members, and a bitmap made by `filled`.
use Prim.Native.Nat.{bit_and, bit_and-bitwise}
use libfibre.Base.{ℕ, zero, suc, ◌+◌, ◌*◌, ◌-◌, ◌/◌, ◌%◌, ◌≡◌, sym, ap, ◌∙◌, arith}
use libfibre.Base.{true, false, ◌==◌, ltb, Bool-cases, inl, inr}
use libfibre.Platform.{bitsize, limit, popcount}
use libfibre.Platform.Bits.{bit, bit-zero, bit-low_mask}
use libfibre.Platform.Scan.{tally, tally-cong, tally-append, popcount-tally}
use libfibre.Platform.Multiscan.{Words, hit, wanted, hit-word}
use libfibre.Bitmap.{Bitmap, test, count, count_helper, filled, full_helper, made, is_full}
use libfibre.Bitmap.Members.{test-hit}

module _ (bits : Bitmap) (good : Words bits) where
  word_count : (i : ℕ) → popcount (bits i) ≡ tally bitsize (λ k. hit bits true (i * bitsize + k))
  unfolding popcount
  word_count i =
      popcount-tally bitsize (bits i)
      ∙ tally-cong bitsize (λ k. bit k (bits i)) _ (λ k l. sym (hit-word bits good true i k l))

  first_word :
      tally bitsize (λ k. hit bits true (0 * bitsize + k))
      ≡ tally (suc zero * bitsize) (hit bits true)
  first_word = tally-cong bitsize _ (hit bits true) (λ k l. ap (hit bits true) (omega arith))

  helper-tally : (x : ℕ) → count_helper x bits ≡ tally (suc x * bitsize) (hit bits true)
  unfolding count_helper
  helper-tally zero = word_count 0 ∙ first_word
  helper-tally (suc x) = omega (
    arith,
    word_count (suc x),
    helper-tally x,
    tally-append (suc x * bitsize) bitsize (hit bits true),
    ap (λ (m : ℕ). tally m (hit bits true)) {x = suc (suc x) * bitsize}
        {y = suc x * bitsize + bitsize} (omega arith),
  )

  -- `count` is the number of members.
  pub count-tally : (n : ℕ) → count (suc n) bits ≡ tally (suc n * bitsize) (λ k. test k bits)
  unfolding count
  count-tally n =
      ap (λ (m : ℕ). count_helper m bits) {x = suc n - 1} {y = n} (omega arith)
      ∙ helper-tally n
      ∙ tally-cong (suc n * bitsize) (hit bits true) _ (λ k l. sym (test-hit bits good k))

filled-Words : Words filled
unfolding filled
filled-Words i = ground arith

full_part : (n : ℕ) → full_helper (suc n) filled ≡ 0
unfolding full_helper filled made
full_part n =
    ap (λ (w : ℕ). bit_and w (full_helper n filled)) {x = filled (suc n)} {y = 0} (ground arith)
    ∙ bit_and-bitwise 0 (full_helper n filled)

-- `filled` has the numbers of the first word as its members, and no others: a bitmap of several words that
-- it makes is not full.
pub filled-members :
    (n k : ℕ) → (test k filled ≡ ltb k bitsize) × (is_full (suc (suc n)) filled ≡ false)
unfolding filled made hit wanted is_full full_helper
filled-members n k = (
  test-hit filled filled-Words k ∙ (elim (Bool-cases (k / bitsize == 0)) [
    | inl e ↦ rw e (bit-low_mask (k % bitsize) bitsize ∙ ground (arith, e))
    | inr e ↦ rw e (bit-zero (k % bitsize) ∙ ground (arith, e))
  ]),
  ap (λ (m : ℕ). full_helper m filled == limit) {x = suc (suc n) - 1} {y = suc n} (omega arith)
      ∙ ap (λ (w : ℕ). w == limit) (full_part n),
)

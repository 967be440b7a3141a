-- ===== src/Platform/Onward.antt =====
-- The search in an array of words from a position on.
use Prim.Native.Nat.{bit_and}
use native.Mathlib.Nat.{one-le-pow, pow-le-pow_right}
use libfibre.Base.{
  ℕ, zero, suc, ◌+◌, ◌*◌, ◌-◌, ◌/◌, ◌%◌, ◌^◌, ◌≤◌, ◌<◌, ◌≡◌, refl, sym, ap, ◌∙◌, arith,
}
use libfibre.Base.{Bool, not, ◌&&◌, leb, ltb, if◌then◌else◌, Bool-cases, inl, inr}
use libfibre.Platform.{bitsize, complement, lsb, datafield, multiscan_loop, multiscan_next, bitmask}
use libfibre.Platform.Bits.{bit, bit-and, bit-not, bit-low_mask, bit_and-lt}
use libfibre.Platform.Scan.{first, first-cong, first-append, first-none, lsb-first, lsb-le}
use libfibre.Platform.Align.{align_down-power}
use libfibre.Platform.Multiscan.{Words, hit, datafield-lt, word_by_word, hit-word}

module _ (r : ℕ) (l : r < bitsize) where
  power_bounds : (0 < 2 ^ r) × (2 ^ r ≤ 2 ^ 63)
  power_bounds = (
    one-le-pow r 2 (omega arith),
    pow-le-pow_right {n = 2} (omega arith) {i = r} {j = 63} (omega arith),
  )

  pub bitmask_lem : bitmask r ≡ 2 ^ r - 1
  bitmask_lem = ground (arith, power_bounds, l)

  -- What `& ~bitmask(r)` leaves of a word.
  pub bit-masked :
      (k x : ℕ) → k < bitsize → bit k (bit_and x (complement (bitmask r))) ≡ (leb r k && bit k x)
  bit-masked k x m =
      let keep : bit k (complement (2 ^ r - 1)) ≡ not (ltb k r) =
        bit-not bitsize k (2 ^ r - 1) (omega (arith, power_bounds)) m ∙ ap not (bit-low_mask k r) in
      bit-and k x (complement (bitmask r))
      ∙ ap (λ (t : ℕ). bit k x && bit k (complement t)) bitmask_lem
      ∙ ap (λ (t : Bool). bit k x && t) keep
      ∙ ground arith

module _ (words : ℕ → ℕ) (good : Words words) (findset : Bool) where
  loop_base :
      (i result field : ℕ)
      → multiscan_loop zero i result field words findset ≡ result + lsb field bitsize
  unfolding multiscan_loop lsb
  loop_base i result field = refl

  loop_step :
      (n i result field : ℕ)
      → multiscan_loop (suc n) i result field words findset ≡ (
          if ltb (lsb field bitsize) bitsize
          then result + lsb field bitsize
          else multiscan_loop n
              (i + 1)
              (result + lsb field bitsize)
              (datafield findset (words (i + 1)))
              words
              findset)
  unfolding multiscan_loop lsb
  loop_step n i result field = refl

  first_zero : (p : ℕ → Bool) → first (0 * bitsize) p ≡ 0
  unfolding first
  first_zero p = refl

  loop-first :
      (n i result field : ℕ)
      → field < 2 ^ bitsize
      → multiscan_loop n i result field words findset
        ≡ result
          + (if ltb (lsb field bitsize) bitsize
              then lsb field bitsize
              else bitsize + first (n * bitsize) (λ k. hit words findset ((i + 1) * bitsize + k)))
  loop-first zero i result field h =
      loop_base i result field
      ∙ ground (arith, lsb-le field h, first_zero (λ k. hit words findset ((i + 1) * bitsize + k)))
  loop-first (suc n) i result field h =
      let field' : ℕ = datafield findset (words (i + 1)) in
      loop_step n i result field
      ∙ ground (
        arith,
        lsb-le field h,
        word_by_word words good findset n (i + 1),
        loop-first n (i + 1) (result + lsb field bitsize) field'
            (datafield-lt findset (words (i + 1)) (good (i + 1))),
      )

  abbrev from : ℕ → ℕ → Bool
  from idx k = leb idx k && hit words findset k

  module _ (n idx : ℕ) (inside : idx < n * bitsize) (small : idx < 2 ^ bitsize) where
    abbrev word : ℕ
    word = idx / bitsize

    abbrev field : ℕ
    field = bit_and (datafield findset (words word)) (complement (bitmask (idx % bitsize)))

    field-lt : field < 2 ^ bitsize
    field-lt = bit_and-lt bitsize _ _ (datafield-lt findset (words word) (good word))

    lsb-from : lsb field bitsize ≡ first bitsize (λ k. from idx (word * bitsize + k))
    lsb-from =
        lsb-first field field-lt
        ∙ first-cong bitsize (λ k. bit k field) _
            (λ k l.
              bit-masked (idx % bitsize) (omega arith) k (datafield findset (words word)) l
              ∙ ap (λ (t : Bool). leb (idx % bitsize) k && t)
                  (sym (hit-word words good findset word k l))
              ∙ ap (λ (t : Bool). t && hit words findset (word * bitsize + k))
                  {x = leb (idx % bitsize) k} {y = leb idx (word * bitsize + k)} (ground arith))

    seen : (k : ℕ) → idx ≤ k → from idx k ≡ hit words findset k
    seen k l = ground (arith, l)

    first_from :
        first (n * bitsize) (from idx)
        ≡ word * bitsize
          + (if ltb (lsb field bitsize) bitsize
              then lsb field bitsize
              else bitsize
                + first
                    ((n - 1 - word) * bitsize)
                    (λ k. hit words findset ((word + 1) * bitsize + k)))
    first_from =
        let start : ℕ = word * bitsize in
        let more : ℕ = (n - 1 - word) * bitsize in
        let before : first start (from idx) ≡ start =
          first-none start (from idx) (λ k l. ground (arith, l)) in
        let behind : first more (λ k. from idx (start + (bitsize + k)))
            ≡ first more (λ k. hit words findset ((word + 1) * bitsize + k)) =
          first-cong more _ _ (λ k l.
            seen (start + (bitsize + k)) (omega arith) ∙ ap (hit words findset) (omega arith)) in
        ap (λ (m : ℕ). first m (from idx)) {x = n * bitsize} {y = start + (bitsize + more)}
          (omega arith)
        ∙ first-append start (bitsize + more) (from idx)
        ∙ ground
            (arith, before, behind, lsb-from, first-append bitsize more (λ k. from idx (start + k)))

  -- The search from a position on finds the first bit there that is set, or clear, the number of bits if
  -- there is none.
  pub multiscan_next-first :
      (n idx : ℕ)
      → idx < 2 ^ bitsize
      → multiscan_next n words idx findset
        ≡ first (n * bitsize) (λ k. leb idx k && hit words findset k)
  unfolding multiscan_next
  multiscan_next-first n idx small = elim (Bool-cases (leb (n * bitsize) idx)) [
    | inl e ↦ rw e (sym (first-none (n * bitsize) (from idx) (λ k l. ground (arith, e, l))))
    | inr e ↦
        let inside : idx < n * bitsize = ground (arith, e) in
        rw (e, align_down-power 6 (omega arith) idx small)
          (loop-first (n - 1 - idx / bitsize) (idx / bitsize) (idx / bitsize * bitsize)
              (field n idx inside small) (field-lt n idx inside small)
            ∙ sym (first_from n idx inside small))
  ]

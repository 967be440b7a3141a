-- ===== src/Bitmap/Members.antt =====
-- What the operations on bitmaps do to their members.
use Prim.Native.Nat.{bit_and}
use native.Mathlib.Nat.{pow-le-pow_right}
use libfibre.Base.{ℕ, ◌*◌, ◌/◌, ◌%◌, ◌^◌, ◌<◌, ◌≡◌, refl, sym, ap, ◌∙◌, arith}
use libfibre.Base.{Bool, true, false, not, ◌&&◌, ◌||◌, ◌==◌, ltb, Bool-cases, inl, inr, update}
use libfibre.Platform.{bitsize, limit, complement, pow2}
use libfibre.Platform.Bits.{
  bit, bit-and, bit-or, bit-xor, xor, bit-not, bit-zero, bit-pow, bit-low_mask, bits_ext,
  bit_and-lt, bit_or-lt, bit_xor-lt,
}
use libfibre.Platform.Multiscan.{Words, hit, wanted}
use libfibre.Bitmap.{
  Bitmap, bit_set, bit_clr, bit_flp, bit_tst, set, clr, flp, test, set_b, clr_b, flp_b,
}

module _ (i : ℕ) (l : i < bitsize) where
  pow2_lem : pow2 i ≡ 2 ^ i
  pow2_lem = omega (arith, pow-le-pow_right {n = 2} (omega arith) {i = i} {j = 63} (omega arith))

  pub pow2-lt : pow2 i < 2 ^ bitsize
  pow2-lt = omega arith

  pub bit-pow2 : (k : ℕ) → bit k (pow2 i) ≡ (k == i)
  bit-pow2 k = ap (bit k) pow2_lem ∙ bit-pow k i

  module _ (k a : ℕ) (m : k < bitsize) where
    pub bit-set : bit k (bit_set a i) ≡ (bit k a || (k == i))
    unfolding bit_set
    bit-set = bit-or k a (pow2 i) ∙ ap (λ (t : Bool). bit k a || t) (bit-pow2 k)

    pub bit-clr : bit k (bit_clr a i) ≡ (bit k a && not (k == i))
    unfolding bit_clr
    bit-clr =
        bit-and k a (complement (pow2 i))
        ∙ ap (λ (t : Bool). bit k a && t)
            (bit-not bitsize k (pow2 i) pow2-lt m ∙ ap not (bit-pow2 k))

    pub bit-flp : bit k (bit_flp a i) ≡ xor (bit k a) (k == i)
    unfolding bit_flp
    bit-flp = bit-xor k a (pow2 i) ∙ ap (xor (bit k a)) (bit-pow2 k)

  -- The bits of `a & pow2(i)`.
  single : (a k : ℕ) → bit k (bit_and a (pow2 i)) ≡ (bit i a && (k == i))
  single a k =
      bit-and k a (pow2 i)
      ∙ ap (λ (t : Bool). bit k a && t) (bit-pow2 k)
      ∙ (elim (Bool-cases (k == i)) [
        | inl e ↦ ap (λ (j : ℕ). bit j a && (k == i)) {x = k} {y = i} (ground (arith, e))
        | inr e ↦ ground (arith, e)
      ])

  pub bit_tst_lem : (a : ℕ) → a < 2 ^ bitsize → bit_tst a i ≡ bit i a
  unfolding bit_tst
  bit_tst_lem a h = elim (Bool-cases (bit i a)) [
    | inl e ↦
        let here : bit i (bit_and a (pow2 i)) ≡ true = single a i ∙ ground (arith, e) in
        elim (Bool-cases (bit_and a (pow2 i) == 0)) [
          | inl z ↦ absurd (
              ground (
                arith,
                here,
                z,
                bit-zero i,
                ap (bit i) {x = bit_and a (pow2 i)} {y = 0} (ground (arith, z)),
              ))
          | inr z ↦ rw (z, e) refl
        ]
    | inr e ↦
        let none : bit_and a (pow2 i) ≡ 0 =
          bits_ext bitsize (bit_and a (pow2 i)) 0 (bit_and-lt bitsize a (pow2 i) h) (omega arith)
            (λ k l. single a k ∙ ground (arith, e, bit-zero k)) in
        ground (arith, none, e)
  ]

pub test-hit : (bits : Bitmap) → Words bits → (k : ℕ) → test k bits ≡ hit bits true k
unfolding test bit_tst hit wanted
test-hit bits good k =
    bit_tst_lem (k % bitsize) (omega arith) (bits (k / bitsize)) (good (k / bitsize))

bit-limit : (k : ℕ) → k < bitsize → bit k limit ≡ true
bit-limit k l = bit-low_mask k bitsize ∙ ground (arith, l)

-- An operation on one bit of one word.
module _ (f : ℕ → ℕ → ℕ) (g : Bool → Bool → Bool)
    (f-lt : (a i : ℕ) → a < 2 ^ bitsize → i < bitsize → f a i < 2 ^ bitsize)
    (f-bit : (i k a : ℕ) → i < bitsize → k < bitsize → bit k (f a i) ≡ g (bit k a) (k == i))
    (g-false : (b : Bool) → g b false ≡ b) (idx : ℕ) (bits : Bitmap) (good : Words bits) where
  abbrev changed : Bitmap
  changed = update bits (idx / bitsize) (f (bits (idx / bitsize)) (idx % bitsize))

  changed-Words : Words changed
  changed-Words i = elim (Bool-cases (i == idx / bitsize)) [
    | inl e ↦
        rw e (f-lt (bits (idx / bitsize)) (idx % bitsize) (good (idx / bitsize)) (omega arith))
    | inr e ↦ rw e (good i)
  ]

  hit-changed : (k : ℕ) → hit changed true k ≡ g (hit bits true k) (k == idx)
  unfolding hit wanted
  hit-changed k = elim (Bool-cases (k / bitsize == idx / bitsize)) [
    | inl e ↦
        let same : k / bitsize ≡ idx / bitsize = ground (arith, e) in
        rw e (
          f-bit (idx % bitsize) (k % bitsize) (bits (idx / bitsize)) (omega arith) (omega arith)
          ∙ ap (λ (w : ℕ). g (bit (k % bitsize) (bits w)) (k % bitsize == idx % bitsize)) (sym same)
          ∙ ap (g (bit (k % bitsize) (bits (k / bitsize)))) {x = k % bitsize == idx % bitsize}
              {y = k == idx} (ground (arith, same)))
    | inr e ↦ rw e (
        sym (
          ap (g (bit (k % bitsize) (bits (k / bitsize)))) {x = k == idx} {y = false}
            (ground (arith, e))
          ∙ g-false (bit (k % bitsize) (bits (k / bitsize)))))
  ]

  changed_once : (k : ℕ) → (test k changed ≡ g (test k bits) (k == idx)) × Words changed
  changed_once k = (
    test-hit changed changed-Words k
        ∙ hit-changed k
        ∙ ap (λ (b : Bool). g b (k == idx)) (sym (test-hit bits good k)),
    changed-Words,
  )

module _ (a i : ℕ) (h : a < 2 ^ bitsize) (l : i < bitsize) where
  pub bit_set-lt : bit_set a i < 2 ^ bitsize
  unfolding bit_set
  bit_set-lt = bit_or-lt bitsize a (pow2 i) h (pow2-lt i l)

  pub bit_clr-lt : bit_clr a i < 2 ^ bitsize
  unfolding bit_clr
  bit_clr-lt = bit_and-lt bitsize a (complement (pow2 i)) h

  bit_flp-lt : bit_flp a i < 2 ^ bitsize
  unfolding bit_flp
  bit_flp-lt = bit_xor-lt bitsize a (pow2 i) h (pow2-lt i l)

module _ (n : ℕ) (bits : Bitmap) (good : Words bits) where
  block_Words : Words (set_b n bits) × Words (clr_b n bits) × Words (flp_b n bits)
  unfolding set_b clr_b flp_b
  block_Words =
      (λ i. ground (arith, good i), λ i. ground (arith, good i), λ i. ground (arith, good i))

block_hit :
    (n k : ℕ) (bits : Bitmap)
    → ltb (k / bitsize) n ≡ true
    → Words bits
    → (hit (set_b n bits) true k ≡ true)
      × (hit (clr_b n bits) true k ≡ false)
      × (hit (flp_b n bits) true k ≡ not (hit bits true k))
unfolding set_b clr_b flp_b hit wanted
block_hit n k bits e good = (
  rw e (bit-limit (k % bitsize) (omega arith)),
  rw e (bit-zero (k % bitsize)),
  rw e (bit-not bitsize (k % bitsize) (bits (k / bitsize)) (good (k / bitsize)) (omega arith)),
)

-- In a bitmap of 64-bit words, `set` adds a number, `clr` removes it, `flp` adds or removes it, no other
-- number is touched, and the words stay within 64 bits.
pub one_bit :
    (idx k : ℕ) (bits : Bitmap)
    → Words bits
    → ((test k (set idx bits) ≡ (test k bits || (k == idx))) × Words (set idx bits))
      × ((test k (clr idx bits) ≡ (test k bits && not (k == idx))) × Words (clr idx bits))
      × ((test k (flp idx bits) ≡ xor (test k bits) (k == idx)) × Words (flp idx bits))
unfolding set clr flp
one_bit idx k bits good = (
  changed_once bit_set ◌||◌ bit_set-lt (λ i k a l m. bit-set i l k a m) (λ b. ground arith) idx bits
      good k,
  changed_once bit_clr (λ a b. a && not b) bit_clr-lt (λ i k a l m. bit-clr i l k a m)
      (λ b. ground arith) idx bits good k,
  changed_once bit_flp xor bit_flp-lt (λ i k a l m. bit-flp i l k a m) (λ b. ground arith) idx bits
      good k,
)

-- `setB` fills a bitmap of `n` words, `clrB` empties it, and `flpB` exchanges members and others.
pub all_bits :
    (n k : ℕ) (bits : Bitmap)
    → Words bits
    → k < n * bitsize
    → ((test k (set_b n bits) ≡ true) × Words (set_b n bits))
      × ((test k (clr_b n bits) ≡ false) × Words (clr_b n bits))
      × ((test k (flp_b n bits) ≡ not (test k bits)) × Words (flp_b n bits))
all_bits n k bits good l =
    let (a, b, c) = block_Words n bits good in
    let inside : ltb (k / bitsize) n ≡ true = ground (arith, l) in
    let (e, f, g) = block_hit n k bits inside good in
    (
      (test-hit (set_b n bits) a k ∙ e, a),
      (test-hit (clr_b n bits) b k ∙ f, b),
      (test-hit (flp_b n bits) c k ∙ g ∙ ap not (sym (test-hit bits good k)), c),
    )

-- ===== src/Platform/Multiscan.antt =====
-- The searches in arrays of words.
use Prim.Native.Nat.{bit_and}
use libfibre.Base.{ℕ, zero, suc, ◌+◌, ◌*◌, ◌/◌, ◌%◌, ◌^◌, ◌<◌, ◌≡◌, refl, sym, ap, ◌∙◌, arith}
use libfibre.Base.{Bool, true, false, not, ◌==◌, ltb, if◌then◌else◌, Bool-cases, inl, inr}
use libfibre.Platform.{bitsize, limit, lsb, datafield, multiscan, multiscan_rest}
use libfibre.Platform.Bits.{bit, bit-not}
use libfibre.Platform.Scan.{first, first-cong, first-le, first-append, lsb-first, lsb-lt, lsb-none}
use libfibre.Platform.Align.{bit_and-limit, bit_and-none}

abbrev pub Words : (ℕ → ℕ) → Type 0
Words words = (i : ℕ) → words i < 2 ^ bitsize

-- What the search looks for in the bits of an array: those that are set, or those that are not.
unfoldable pub wanted : (findset : Bool) → Bool → Bool
wanted true b = b
wanted false b = not b

unfoldable pub hit : (words : ℕ → ℕ) → (findset : Bool) → ℕ → Bool
hit words findset k = wanted findset (bit (k % bitsize) (words (k / bitsize)))

pub datafield-lt : (findset : Bool) (x : ℕ) → x < 2 ^ bitsize → datafield findset x < 2 ^ bitsize
datafield-lt true x h = h
datafield-lt false x h = omega arith

pub bit-datafield :
    (findset : Bool) (i x : ℕ)
    → x < 2 ^ bitsize
    → i < bitsize
    → bit i (datafield findset x) ≡ wanted findset (bit i x)
unfolding wanted
bit-datafield true i x h l = refl
bit-datafield false i x h l = bit-not bitsize i x h l

module _ (words : ℕ → ℕ) (good : Words words) (findset : Bool) where
  pub hit-word :
      (i k : ℕ)
      → k < bitsize
      → hit words findset (i * bitsize + k) ≡ bit k (datafield findset (words i))
  unfolding hit
  hit-word i k l =
      let q : (i * bitsize + k) / bitsize ≡ i = omega arith in
      let r : (i * bitsize + k) % bitsize ≡ k = omega arith in
      rw (q, r) (sym (bit-datafield findset k (words i) (good i) l))

  lsb-hit :
      (i : ℕ)
      → lsb (datafield findset (words i)) bitsize
        ≡ first bitsize (λ k. hit words findset (i * bitsize + k))
  lsb-hit i =
      lsb-first (datafield findset (words i)) (datafield-lt findset (words i) (good i))
      ∙ first-cong bitsize (λ k. bit k (datafield findset (words i))) _
          (λ k l. sym (hit-word i k l))

  pub after_word :
      (n i : ℕ)
      → first n (λ k. hit words findset (i * bitsize + (bitsize + k)))
        ≡ first n (λ k. hit words findset ((i + 1) * bitsize + k))
  after_word n i = first-cong n _ _ (λ k l. ap (hit words findset) (omega arith))

  -- The result of a search from the word `i` on is that in this word, or else goes on behind it.
  pub word_by_word :
      (n i : ℕ)
      → first (suc n * bitsize) (λ k. hit words findset (i * bitsize + k)) ≡ (
          if ltb (lsb (datafield findset (words i)) bitsize) bitsize
          then lsb (datafield findset (words i)) bitsize
          else bitsize + first (n * bitsize) (λ k. hit words findset ((i + 1) * bitsize + k)))
  word_by_word n i =
      let later = first (n * bitsize) (λ k. hit words findset ((i + 1) * bitsize + k)) in
      ap (λ (m : ℕ). first m (λ k. hit words findset (i * bitsize + k))) {x = suc n * bitsize}
        {y = bitsize + n * bitsize} (omega arith)
      ∙ first-append bitsize (n * bitsize) (λ k. hit words findset (i * bitsize + k))
      ∙ ap
          (λ (t : ℕ).
            if ltb (first bitsize (λ k. hit words findset (i * bitsize + k))) bitsize
            then first bitsize (λ k. hit words findset (i * bitsize + k))
            else bitsize + t)
          (after_word (n * bitsize) i)
      ∙ ap (λ (t : ℕ). if ltb t bitsize then t else bitsize + later) (sym (lsb-hit i))

  lsb-small : (i : ℕ) → lsb (datafield findset (words i)) bitsize < 2 ^ bitsize
  lsb-small i =
      omega (arith, lsb-hit i, first-le bitsize (λ k. hit words findset (i * bitsize + k)))

  rest_step :
      (n i result mask b : ℕ)
      → bit_and (lsb (datafield findset (words i)) bitsize) mask ≡ b
      → (c : Bool) → (datafield findset (words i) == 0) ≡ c
      → multiscan_rest (suc n) i result mask words findset
        ≡ multiscan_rest n (i + 1) (result + b) (if c then mask else 0) words findset
  unfolding multiscan_rest lsb
  rest_step n i result mask b e c f =
      ap
        (λ (t : ℕ).
          multiscan_rest n (i + 1) (result + t)
            (if datafield findset (words i) == 0 then mask else 0) words findset)
        e
      ∙ ap
          (λ (t : Bool).
            multiscan_rest n (i + 1) (result + b) (if t then mask else 0) words findset)
          f

  rest-done : (n i result : ℕ) → multiscan_rest n i result 0 words findset ≡ result
  unfolding multiscan_rest
  rest-done zero i result = refl
  rest-done (suc n) i result =
      let none = bit_and-none bitsize (lsb (datafield findset (words i)) bitsize) (lsb-small i) in
      elim (Bool-cases (datafield findset (words i) == 0)) [
        | inl e ↦
            rest_step n i result 0 0 none true e ∙ rest-done n (i + 1) (result + 0) ∙ omega arith
        | inr e ↦
            rest_step n i result 0 0 none false e ∙ rest-done n (i + 1) (result + 0) ∙ omega arith
      ]

  no_words :
      (i result : ℕ)
      → multiscan_rest 0 i result limit words findset
        ≡ result + first 0 (λ k. hit words findset (i * bitsize + k))
  unfolding multiscan_rest first
  no_words i result = omega arith

  rest-first :
      (n i result : ℕ)
      → multiscan_rest n i result limit words findset
        ≡ result + first (n * bitsize) (λ k. hit words findset (i * bitsize + k))
  rest-first zero i result = no_words i result
  rest-first (suc n) i result =
      let field : ℕ = datafield findset (words i) in
      let b : ℕ = lsb field bitsize in
      let all = bit_and-limit bitsize b (lsb-small i) in
      elim (Bool-cases (field == 0)) [
        | inl e ↦
            rest_step n i result limit b all true e
            ∙ rest-first n (i + 1) (result + b)
            ∙ ground (arith, word_by_word n i, lsb-none field e)
        | inr e ↦
            rest_step n i result limit b all false e
            ∙ rest-done n (i + 1) (result + b)
            ∙ ground
                (arith, word_by_word n i, lsb-lt field (datafield-lt findset (words i) (good i)) e)
      ]

  -- The scan of an array of `n` words finds the position of the first bit that is set, or clear, the
  -- number of bits if there is none.
  pub multiscan-first :
      (n : ℕ) → multiscan n words findset ≡ first (n * bitsize) (hit words findset)
  unfolding multiscan
  multiscan-first n =
      let start : first (n * bitsize) (λ k. hit words findset (0 * bitsize + k))
          ≡ first (n * bitsize) (hit words findset) =
        first-cong (n * bitsize) _ _ (λ k l. ap (hit words findset) (omega arith)) in
      rest-first n 0 0 ∙ omega (arith, start)

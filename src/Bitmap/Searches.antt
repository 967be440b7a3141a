-- ===== src/Bitmap/Searches.antt =====
-- Searching, testing and counting the members of a bitmap.
use Prim.Native.Nat.{bit_and, bit_or}
use libfibre.Base.{
  ℕ, zero, suc, ◌+◌, ◌*◌, ◌-◌, ◌/◌, ◌%◌, ◌^◌, ◌≤◌, ◌<◌, ◌≡◌, refl, sym, ap, ◌∙◌, arith,
}
use libfibre.Base.{Bool, true, false, ◌&&◌, ◌||◌, ◌==◌, leb, ltb, Bool-cases, ==_true, inl, inr}
use libfibre.Platform.{bitsize, limit, datafield}
use libfibre.Platform.Bits.{
  bit, bit-and, bit-or, bit-zero, bit-low_mask, bits_ext, bit_and-lt, bit_or-lt,
}
use libfibre.Platform.Scan.{first, first-cong, first-none, first-end}
use libfibre.Platform.Multiscan.{Words, hit, wanted, hit-word, datafield-lt, multiscan-first}
use libfibre.Platform.Onward.{multiscan_next-first}
use libfibre.Bitmap.{Bitmap, test, find, findnext, is_empty, is_full, empty_helper, full_helper}
use libfibre.Bitmap.Members.{test-hit}

module _ (bits : Bitmap) (good : Words bits) where
  wanted-test : (findset : Bool) (k : ℕ) → hit bits findset k ≡ wanted findset (test k bits)
  unfolding hit wanted
  wanted-test findset k = ap (wanted findset) (sym (test-hit bits good k))

  -- `find` returns the least member, or the least number that is none with the argument false, and the
  -- bitmap's size if there is none.
  pub find-first :
      (n : ℕ) (findset : Bool)
      → find n findset bits ≡ first (n * bitsize) (λ k. wanted findset (test k bits))
  unfolding find
  find-first n findset =
      multiscan-first bits good findset n
      ∙ first-cong (n * bitsize) (hit bits findset) _ (λ k l. wanted-test findset k)

  -- `findnext` does so from a position on, which counts.
  pub findnext-first :
      (n idx : ℕ) (findset : Bool)
      → idx < 2 ^ bitsize
      → findnext n idx findset bits
        ≡ first (n * bitsize) (λ k. leb idx k && wanted findset (test k bits))
  unfolding findnext
  findnext-first n idx findset l =
      multiscan_next-first bits good findset n idx l
      ∙ first-cong (n * bitsize) (λ k. leb idx k && hit bits findset k) _
          (λ k l. ap (λ (b : Bool). leb idx k && b) (wanted-test findset k))

or_zero : (a b : ℕ) → a < 2 ^ bitsize → b < 2 ^ bitsize → bit_or a b ≡ 0 → (a ≡ 0) × (b ≡ 0)
or_zero a b h k e =
    let clear : (i : ℕ) → (bit i a || bit i b) ≡ false =
      λ i. sym (bit-or i a b) ∙ ap (bit i) e ∙ bit-zero i in
    (
      bits_ext bitsize a 0 h (omega arith) (λ i l. ground (arith, clear i, bit-zero i)),
      bits_ext bitsize b 0 k (omega arith) (λ i l. ground (arith, clear i, bit-zero i)),
    )

and_full :
    (a b : ℕ) → a < 2 ^ bitsize → b < 2 ^ bitsize → bit_and a b ≡ limit → (a ≡ limit) × (b ≡ limit)
and_full a b h k e =
    let both : (i : ℕ) → (bit i a && bit i b) ≡ ltb i bitsize =
      λ i. sym (bit-and i a b) ∙ ap (bit i) e ∙ bit-low_mask i bitsize in
    (
      bits_ext bitsize a limit h (omega arith)
          (λ i l. ground (arith, both i, l, bit-low_mask i bitsize)),
      bits_ext bitsize b limit k (omega arith)
          (λ i l. ground (arith, both i, l, bit-low_mask i bitsize)),
    )

module _ (bits : Bitmap) (good : Words bits) where
  helper-lt : (x : ℕ) → (empty_helper x bits < 2 ^ bitsize) × (full_helper x bits < 2 ^ bitsize)
  unfolding empty_helper full_helper
  helper-lt zero = (good 0, good 0)
  helper-lt (suc x) = (
    bit_or-lt bitsize (bits (suc x)) (empty_helper x bits) (good (suc x)) ((helper-lt x).0),
    bit_and-lt bitsize (bits (suc x)) (full_helper x bits) (good (suc x)),
  )

  empty_words : (x : ℕ) → empty_helper x bits ≡ 0 → (i : ℕ) → i ≤ x → bits i ≡ 0
  unfolding empty_helper
  empty_words zero e i l = ap bits {x = i} {y = 0} (omega arith) ∙ e
  empty_words (suc x) e i l =
      let (a, b) =
        or_zero (bits (suc x)) (empty_helper x bits) (good (suc x)) ((helper-lt x).0) e in
      elim (Bool-cases (i == suc x)) [
        | inl f ↦ ap bits {x = i} {y = suc x} (ground (arith, f)) ∙ a
        | inr f ↦ empty_words x b i (ground (arith, f, l))
      ]

  words_empty : (x : ℕ) → ((i : ℕ) → i ≤ x → bits i ≡ 0) → empty_helper x bits ≡ 0
  unfolding empty_helper
  words_empty zero h = h 0 (omega arith)
  words_empty (suc x) h =
      rw (h (suc x) (omega arith), words_empty x (λ i l. h i (omega arith))) refl

  full_words : (x : ℕ) → full_helper x bits ≡ limit → (i : ℕ) → i ≤ x → bits i ≡ limit
  unfolding full_helper
  full_words zero e i l = ap bits {x = i} {y = 0} (omega arith) ∙ e
  full_words (suc x) e i l =
      let (a, b) =
        and_full (bits (suc x)) (full_helper x bits) (good (suc x)) ((helper-lt x).1) e in
      elim (Bool-cases (i == suc x)) [
        | inl f ↦ ap bits {x = i} {y = suc x} (ground (arith, f)) ∙ a
        | inr f ↦ full_words x b i (ground (arith, f, l))
      ]

  words_full : (x : ℕ) → ((i : ℕ) → i ≤ x → bits i ≡ limit) → full_helper x bits ≡ limit
  unfolding full_helper
  words_full zero h = h 0 (omega arith)
  words_full (suc x) h = rw (h (suc x) (omega arith), words_full x (λ i l. h i (omega arith))) refl

  -- A search finds nothing exactly when it sees no bit in any word.
  none-found :
      (n : ℕ) (findset : Bool)
      → ((i : ℕ) → i < n → datafield findset (bits i) ≡ 0)
      → find n findset bits ≡ n * bitsize
  unfolding find
  none-found n findset h =
      multiscan-first bits good findset n
      ∙ first-none (n * bitsize) (hit bits findset) (λ k l.
        ap (hit bits findset) {x = k} {y = k / bitsize * bitsize + k % bitsize} (omega arith)
        ∙ hit-word bits good findset (k / bitsize) (k % bitsize) (omega arith)
        ∙ ap (bit (k % bitsize)) (h (k / bitsize) (omega arith))
        ∙ bit-zero (k % bitsize))

  found-none :
      (n : ℕ) (findset : Bool)
      → find n findset bits ≡ n * bitsize
      → (i : ℕ) → i < n
      → datafield findset (bits i) ≡ 0
  unfolding find
  found-none n findset e i l =
      let end =
        first-end (n * bitsize) (hit bits findset)
          (sym (multiscan-first bits good findset n) ∙ e) in
      bits_ext bitsize (datafield findset (bits i)) 0 (datafield-lt findset (bits i) (good i))
        (omega arith)
        (λ j m.
          sym (hit-word bits good findset i j m)
          ∙ end (i * bitsize + j) (omega arith)
          ∙ sym (bit-zero j))

  -- `empty` holds exactly when `find` finds no member, `full` when it finds no other number.
  same_answer : (a b : Bool) → (a ≡ true → b ≡ true) → (b ≡ true → a ≡ true) → a ≡ b
  same_answer true b f g = sym (f refl)
  same_answer false true f g = g refl
  same_answer false false f g = refl

  pub empty_full :
      (n : ℕ)
      → (is_empty (suc n) bits ≡ (find (suc n) true bits == suc n * bitsize))
        × (is_full (suc n) bits ≡ (find (suc n) false bits == suc n * bitsize))
  unfolding is_empty is_full empty_helper full_helper
  empty_full n =
      let size : suc n - 1 ≡ n = omega arith in
      rw size (
        same_answer _ _
            (λ e.
              ==_true (
                none-found (suc n) true (λ i l. empty_words n (ground (arith, e)) i (omega arith))))
            (λ e.
              ==_true (
                words_empty n
                  (λ i l. found-none (suc n) true (ground (arith, e)) i (omega arith)))),
        same_answer _ _
            (λ e. ==_true (
              none-found (suc n) false
                (λ i l. omega (arith, full_words n (ground (arith, e)) i (omega arith)))))
            (λ e. ==_true (
              words_full n (λ i l.
                omega
                  (arith, good i, found-none (suc n) false (ground (arith, e)) i (omega arith))))),
      )

-- ===== src/Bitmap/Hierarchy/Updates.antt =====
-- One bit of one level is set, and what that changes.
use native.Mathlib.Nat.{mod-lt, mod-add-div'}
use libfibre.Base.{ℕ, suc, ◌*◌, ◌/◌, ◌%◌, ◌≤◌, ◌<◌, ◌≡◌, refl, sym, ap, ◌∙◌, arith}
use libfibre.Base.{
  Bool, true, false, not, ◌&&◌, ◌||◌, ◌==◌, ltb, if◌then◌else◌, Bool-cases, inl, inr,
}
use libfibre.Platform.{bitsize}
use libfibre.Platform.Bits.{xor}
use libfibre.Platform.Scan.{first, first-min}
use libfibre.Platform.Multiscan.{Words, wanted}
use libfibre.Bitmap.{Bitmap, is_empty}
use libfibre.Bitmap
use libfibre.Bitmap.Members.{one_bit}
use libfibre.Bitmap.Searches.{find-first, empty_full}
use libfibre.Bitmap.Hierarchy.{Hierarchy, width, store}

-- The bits of a level, in a row.
abbrev pub bit_at : (n : ℕ) → Hierarchy → (l x : ℕ) → Bool
bit_at n h l x = Bitmap.test (x % width n) (h.bitmaps l (x / width n))

-- A level's bit and the bitmap that it stands for disagree.
abbrev pub mismatch : (n : ℕ) → Hierarchy → (l i : ℕ) → Bool
mismatch n h l i = xor (bit_at n h (suc l) i) (not (is_empty n (h.bitmaps l i)))

abbrev pub HasWords : Hierarchy → Type 0
HasWords h = (l i : ℕ) → Words (h.bitmaps l i)

-- A bitmap with a member is not empty.
pub is_empty-member :
    (n r : ℕ) (bits : Bitmap)
    → Words bits
    → r < width (suc n)
    → Bitmap.test r bits ≡ true
    → is_empty (suc n) bits ≡ false
unfolding wanted
is_empty-member n r bits good l e =
    let low : first (suc n * bitsize) (λ k. Bitmap.test k bits) ≤ r =
      first-min (suc n * bitsize) (λ k. Bitmap.test k bits) r e in
    let found : Bitmap.find (suc n) true bits ≡ first (suc n * bitsize) (λ k. Bitmap.test k bits) =
      find-first bits good (suc n) true in
    (empty_full bits good n).0 ∙ ground (arith, found, low, l)

or_false : (b : Bool) → b ≡ (b || false)
or_false b = ground arith

same_index : (x y w : ℕ) → x / w ≡ y / w → (x % w == y % w) ≡ (x == y)
same_index x y w e = ground (
  arith,
  mod-add-div' x w,
  mod-add-div' y w,
  ap (λ (q : ℕ). q * w) e,
  ap (λ (q : ℕ). q % w) {x = x} {y = y},
)

module _ (n' l idx : ℕ) (h : Hierarchy) (good : HasWords h) where
  abbrev n : ℕ
  n = suc n'

  abbrev block : ℕ
  block = idx / width n

  abbrev bits : Bitmap
  bits = Bitmap.set (idx % width n) (h.bitmaps l block)

  -- The hierarchy with the bit set.
  abbrev pub with_bit : Hierarchy
  with_bit = store l block bits h

  set_here :
      (r : ℕ)
      → (Bitmap.test r bits ≡ (Bitmap.test r (h.bitmaps l block) || (r == idx % width n)))
        × Words bits
  set_here r = (one_bit (idx % width n) r (h.bitmaps l block) (good l block)).0

  -- Which bitmaps of the new hierarchy are the old ones.
  there : (l' i' : ℕ) → (l' == l && i' == block) ≡ false → with_bit.bitmaps l' i' ≡ h.bitmaps l' i'
  there l' i' e = elim (Bool-cases (l' == l)) [
    | inl c ↦
        let same : l ≡ l' = ground (arith, c) in
        elim (Bool-cases (i' == block)) [
          | inl d ↦ absurd (ground (arith, c, d, e))
          | inr d ↦ rw (c, d) (ap (λ (k : ℕ). h.bitmaps k i') same)
        ]
    | inr c ↦ rw c refl
  ]

  here_now : (l' i' : ℕ) → (l' == l && i' == block) ≡ true → with_bit.bitmaps l' i' ≡ bits
  here_now l' i' e =
      let c : (l' == l) ≡ true = ground (arith, e) in
      let d : (i' == block) ≡ true = ground (arith, e) in rw (c, d) refl

  pub with_bit-HasWords : HasWords with_bit
  with_bit-HasWords l' i' = elim (Bool-cases (l' == l && i' == block)) [
    | inl e ↦ rw (here_now l' i' e) ((set_here 0).1)
    | inr e ↦ rw (there l' i' e) (good l' i')
  ]

  elsewhere : (l' x : ℕ) → (l' == l && x / width n == block) ≡ false → false ≡ (l' == l && x == idx)
  elsewhere l' x e = elim (Bool-cases (x == idx)) [
    | inl c ↦
        let same : x / width n ≡ block =
          ap (λ (k : ℕ). k / width n) {x = x} {y = idx} (ground (arith, c)) in
        ground (arith, e, same, c)
    | inr c ↦ ground (arith, c)
  ]

  -- The bit is set, and no other bit changes.
  pub bit_at-with_bit :
      (l' x : ℕ) → bit_at n with_bit l' x ≡ (bit_at n h l' x || (l' == l && x == idx))
  bit_at-with_bit l' x = elim (Bool-cases (l' == l && x / width n == block)) [
    | inl e ↦
        let level : l' ≡ l = ground (arith, e) in
        let place : x / width n ≡ block = ground (arith, e) in
        ap (Bitmap.test (x % width n)) (here_now l' (x / width n) e)
        ∙ (set_here (x % width n)).0
        ∙ ap (λ (b : Bool). Bitmap.test (x % width n) (h.bitmaps l block) || b)
            (same_index x idx (width n) place)
        ∙ ap (λ (k : ℕ). Bitmap.test (x % width n) (h.bitmaps k block) || (x == idx)) (sym level)
        ∙ ap (λ (k : ℕ). Bitmap.test (x % width n) (h.bitmaps l' k) || (x == idx)) (sym place)
        ∙ ap (λ (b : Bool). bit_at n h l' x || (b && x == idx)) {x = true} {y = l' == l}
            (ground (arith, e))
    | inr e ↦
        ap (Bitmap.test (x % width n)) (there l' (x / width n) e)
        ∙ or_false (bit_at n h l' x)
        ∙ ap (λ (b : Bool). bit_at n h l' x || b) (elsewhere l' x e)
  ]

  pub is_empty-with_bit :
      (l' i' : ℕ)
      → is_empty n (with_bit.bitmaps l' i')
        ≡ (if l' == l && i' == block then false else is_empty n (h.bitmaps l' i'))
  is_empty-with_bit l' i' = elim (Bool-cases (l' == l && i' == block)) [
    | inl e ↦
        ap (is_empty n) (here_now l' i' e)
        ∙ is_empty-member n' (idx % width n) bits ((set_here 0).1)
            (mod-lt idx {m = width n} (omega arith)) ((set_here (idx % width n)).0 ∙ ground arith)
        ∙ rw e refl
    | inr e ↦ rw e (ap (is_empty n) (there l' i' e))
  ]

  pub below-with_bit : (l' i' : ℕ) → ltb l' l ≡ true → with_bit.bitmaps l' i' ≡ h.bitmaps l' i'
  below-with_bit l' i' e = there l' i' (ground (arith, e))

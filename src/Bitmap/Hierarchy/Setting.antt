-- ===== src/Bitmap/Hierarchy/Setting.antt =====
-- `set` of a hierarchical bitmap.
use native.Mathlib.Nat.{pow-zero, pow-suc, div-lt_iff_lt-mul}
use libfibre.Base.{ℕ, zero, suc, ◌+◌, ◌/◌, ◌%◌, ◌^◌, ◌<◌, ◌≡◌, refl, sym, ap, ◌∙◌, arith}
use libfibre.Base.{
  Bool, true, false, not, ◌&&◌, ◌||◌, some, ◌==◌, ltb, if◌then◌else◌, Bool-cases, inl, inr,
}
use libfibre.Platform.Bits.{xor}
use libfibre.Bitmap.{is_empty}
use libfibre.Bitmap
use libfibre.Bitmap.Hierarchy.{Hierarchy, width, store, set_from, set, test}
use libfibre.Bitmap.Hierarchy.Updates.{
  bit_at, mismatch, HasWords, with_bit, with_bit-HasWords, bit_at-with_bit, is_empty-with_bit,
  below-with_bit,
}

-- Every bit of a level but the lowest is set exactly if the bitmap that it stands for is not empty.
abbrev pub IsTree : (levels n : ℕ) → Hierarchy → Type 0
IsTree levels n h = HasWords h × ((l i : ℕ) → (ltb (suc l) levels && mismatch n h l i) ≡ false)

set_step :
    (n k l idx : ℕ) (h : Hierarchy)
    → set_from n (suc k) l idx h ≡ (
        if bit_at n h l idx
        then some h
        else set_from n k
            (l + 1)
            (idx / width n)
            (store l (idx / width n) (Bitmap.set (idx % width n) (h.bitmaps l (idx / width n))) h))
unfolding set_from Bitmap.test Bitmap.set
set_step n k l idx h = refl

guarded_false : (g m : Bool) → m ≡ false → (g && m) ≡ false
guarded_false g m e = ground (arith, e)

unguarded : (g c m : Bool) → c ≡ false → (g && (not c && m)) ≡ false → (g && m) ≡ false
unguarded g c m e h = ground (arith, e, h)

-- Below the level that the loop has reached.
below_top :
    (l l' i idx : ℕ) (m : Bool)
    → (ltb (suc l') (l + 0) && (not (suc l' == l && i == idx) && m)) ≡ false
    → (ltb (suc l') (l + 0) && m) ≡ false
below_top l l' i idx m e = ground (arith, e)

no_more : (b : Bool) (x idx : ℕ) → b ≡ (b || (ltb 0 0 && x == idx))
no_more b x idx = ground arith

set_base : (n l idx : ℕ) (h : Hierarchy) → idx ≡ 0 → set_from n zero l idx h ≡ some h
unfolding set_from
set_base n l idx h e = ground (arith, e)

module _ (n' : ℕ) where
  abbrev n : ℕ
  n = suc n'

  -- Before the loop comes to level `l` the tree is right up to the bit of that level that is to be set.
  abbrev AlmostTree : (levels l idx : ℕ) → Hierarchy → Type 0
  AlmostTree levels l idx h =
      (l' i : ℕ)
      → (ltb (suc l') levels && (not (suc l' == l && i == idx) && mismatch n h l' i)) ≡ false

  abbrev NonEmpty : (l idx : ℕ) → Hierarchy → Type 0
  NonEmpty l idx h = (l' : ℕ) → (suc l' == l && is_empty n (h.bitmaps l' idx)) ≡ false

  -- The result of the loop from level `l` on, of `k` levels.
  abbrev Sets : (k l idx : ℕ) → Hierarchy → Type 0
  Sets k l idx h =
      (h' : Hierarchy) × (set_from n k l idx h ≡ some h')
      × IsTree (l + k) n h'
      × ((l' i : ℕ) → ltb l' l ≡ true → h'.bitmaps l' i ≡ h.bitmaps l' i)
      × ((x : ℕ) → bit_at n h' l x ≡ (bit_at n h l x || (ltb 0 k && x == idx)))

  module _ (l idx : ℕ) (h : Hierarchy) (good : HasWords h) (full : NonEmpty l idx h) where
    abbrev next : Hierarchy
    next = with_bit n' l idx h good

    almost_next :
        (levels : ℕ) → AlmostTree levels l idx h → AlmostTree levels (l + 1) (idx / width n) next
    almost_next levels almost l' i = elim (Bool-cases (suc l' == l && i == idx)) [
      | inl e ↦
          let place : i ≡ idx = ground (arith, e) in
          let level : suc l' ≡ l = ground (arith, e) in
          let nonempty : is_empty n (h.bitmaps l' i) ≡ false =
            ap (λ (j : ℕ). is_empty n (h.bitmaps l' j)) place ∙ ground (arith, full l', level) in
          combine levels l' i (bit_at-with_bit n' l idx h good (suc l') i ∙ ground (arith, e))
            (is_empty-with_bit n' l idx h good l' i ∙ ground (arith, nonempty))
      | inr e ↦ elim (Bool-cases (l' == l && i == idx / width n)) [
        | inl d ↦ skipped levels l' i (mismatch n next l' i) d
        | inr d ↦
            let same : mismatch n next l' i ≡ mismatch n h l' i =
              ap (λ (b : Bool). xor b (not (is_empty n (next.bitmaps l' i))))
                (bit_at-with_bit n' l idx h good (suc l') i ∙ or_no (bit_at n h (suc l') i) _ e)
              ∙ ap (λ (b : Bool). xor (bit_at n h (suc l') i) (not b))
                  (is_empty-with_bit n' l idx h good l' i ∙ rw d refl) in
            carried levels l' i (mismatch n h l' i) (mismatch n next l' i) same e (almost l' i)
      ]
    ]
      where
        or_no : (a b : Bool) → b ≡ false → (a || b) ≡ a
        or_no a b e = ground (arith, e)

        skipped :
            (levels l' i : ℕ) (m : Bool)
            → (l' == l && i == idx / width n) ≡ true
            → (ltb (suc l') levels && (not (suc l' == l + 1 && i == idx / width n) && m)) ≡ false
        skipped levels l' i m d = ground (arith, d)

        carried :
            (levels l' i : ℕ) (m m' : Bool)
            → m' ≡ m
            → (suc l' == l && i == idx) ≡ false
            → (ltb (suc l') levels && (not (suc l' == l && i == idx) && m)) ≡ false
            → (ltb (suc l') levels && (not (suc l' == l + 1 && i == idx / width n) && m')) ≡ false
        carried levels l' i m m' e c a = ground (arith, e, c, a)

        combine :
            (levels l' i : ℕ)
            → bit_at n next (suc l') i ≡ true
            → is_empty n (next.bitmaps l' i) ≡ false
            → (ltb (suc l') levels
                && (not (suc l' == l + 1 && i == idx / width n) && mismatch n next l' i))
              ≡ false
        combine levels l' i a b = rw (a, b) (ground arith)

    full_next : NonEmpty (l + 1) (idx / width n) next
    full_next l' = elim (Bool-cases (l' == l)) [
      | inl e ↦
          let here : is_empty n (next.bitmaps l' (idx / width n)) ≡ false =
            is_empty-with_bit n' l idx h good l' (idx / width n) ∙ ground (arith, e) in
          ground (arith, here)
      | inr e ↦ ground (arith, e)
    ]

    settled :
        (l' i : ℕ)
        → bit_at n h l idx ≡ true
        → (suc l' == l && i == idx) ≡ true
        → mismatch n h l' i ≡ false
    settled l' i e c =
        let place : i ≡ idx = ground (arith, c) in
        let level : suc l' ≡ l = ground (arith, c) in
        let bit : bit_at n h (suc l') i ≡ true =
          ap (λ (k : ℕ). bit_at n h k i) level ∙ ap (bit_at n h l) place ∙ e in
        let nonempty : is_empty n (h.bitmaps l' i) ≡ false =
          ap (λ (j : ℕ). is_empty n (h.bitmaps l' j)) place ∙ ground (arith, full l', level) in
        rw (bit, nonempty) refl

    -- The bit is set already: the loop ends.
    already :
        (k : ℕ) → bit_at n h l idx ≡ true → AlmostTree (l + suc k) l idx h → Sets (suc k) l idx h
    already k e almost = (
      h,
      set_step n k l idx h ∙ rw e refl,
      (good, λ l' i. tree l' i),
      λ l' i b. refl,
      λ x. same_bit x,
    )
      where
        tree : (l' i : ℕ) → (ltb (suc l') (l + suc k) && mismatch n h l' i) ≡ false
        tree l' i = elim (Bool-cases (suc l' == l && i == idx)) [
          | inl c ↦ guarded_false (ltb (suc l') (l + suc k)) _ (settled l' i e c)
          | inr c ↦ unguarded (ltb (suc l') (l + suc k)) _ (mismatch n h l' i) c (almost l' i)
        ]

        same_bit : (x : ℕ) → bit_at n h l x ≡ (bit_at n h l x || (ltb 0 (suc k) && x == idx))
        same_bit x = elim (Bool-cases (x == idx)) [
          | inl c ↦
              let here : bit_at n h l x ≡ true =
                ap (bit_at n h l) {x = x} {y = idx} (ground (arith, c)) ∙ e in
              ground (arith, here)
          | inr c ↦ ground (arith, c)
        ]

  set_from_lem :
      (k l idx : ℕ) (h : Hierarchy)
      → HasWords h
      → idx < width n ^ k
      → AlmostTree (l + k) l idx h
      → NonEmpty l idx h
      → Sets k l idx h
  set_from_lem zero l idx h good inside almost full = (
    h,
    set_base n l idx h (omega (arith, inside, pow-zero (width n))),
    (good, λ l' i. below_top l l' i idx (mismatch n h l' i) (almost l' i)),
    λ l' i b. refl,
    λ x. no_more (bit_at n h l x) x idx,
  )
  set_from_lem (suc k) l idx h good inside almost full = elim (Bool-cases (bit_at n h l idx)) [
    | inl e ↦ already l idx h good full k e almost
    | inr e ↦
        let levels : l + suc k ≡ l + 1 + k = omega arith in
        let below_block : idx / width n < width n ^ k =
          (div-lt_iff_lt-mul {k = width n} {x = idx} {y = width n ^ k} (omega arith)).1
            (omega (arith, inside, pow-suc (width n) k)) in
        let almost' : AlmostTree (l + 1 + k) l idx h = λ l' i.
          ap (λ (m : ℕ). ltb (suc l') m && (not (suc l' == l && i == idx) && mismatch n h l' i))
            (sym levels)
          ∙ almost l' i in
        let (h', f, (good', tree), kept, bits) =
          set_from_lem k (l + 1) (idx / width n) (next l idx h good full)
            (with_bit-HasWords n' l idx h good) below_block
            (almost_next l idx h good full (l + 1 + k) almost') (full_next l idx h good full) in
        (
          h',
          set_step n k l idx h ∙ rw e f,
          (good', λ l' i. ap (λ (m : ℕ). ltb (suc l') m && mismatch n h' l' i) levels ∙ tree l' i),
          λ l' i b. kept l' i (ground (arith, b)) ∙ below-with_bit n' l idx h good l' i b,
          λ x.
              ap (Bitmap.test (x % width n)) (kept l (x / width n) (ground arith))
              ∙ bit_at-with_bit n' l idx h good l x
              ∙ ap (λ (b : Bool). bit_at n h l x || b) (ground arith),
        )
  ]

-- `set` of a number within the bitmap's width sets its bit and no other, fails no assertion, and keeps every
-- bit of a higher level set exactly if the bitmap that it stands for is not empty.
pub set-IsTree :
    (levels n' idx : ℕ) (h : Hierarchy)
    → IsTree (suc levels) (suc n') h
    → idx < width (suc n') ^ suc levels
    → (h' : Hierarchy) × (set (suc levels) (suc n') idx h ≡ some h')
      × IsTree (suc levels) (suc n') h'
      × ((x : ℕ) → test (suc n') x h' ≡ (test (suc n') x h || (x == idx)))
unfolding set test
set-IsTree levels n' idx h (good, tree) inside =
    let none : 0 + suc levels ≡ suc levels = omega arith in
    let (h', f, (good', tree'), kept, bits) =
      set_from_lem n' (suc levels) 0 idx h good inside (λ l i. ground (arith, tree l i))
        (λ l. ground arith) in
    (
      h',
      f,
      (
        good',
        λ l i. ap (λ (m : ℕ). ltb (suc l) m && mismatch (suc n') h' l i) (sym none) ∙ tree' l i,
      ),
      λ x. bits x ∙ ap (λ (b : Bool). bit_at (suc n') h 0 x || b) (ground arith),
    )

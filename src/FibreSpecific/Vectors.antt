-- ===== src/FibreSpecific/Vectors.antt =====
-- Vectors that are read, written and grown.
use libfibre.Base.{ℕ, zero, suc, ◌+◌, ◌*◌, ◌-◌, ◌≤◌, ◌<◌, ◌≡◌, refl, ap, ◌∙◌, arith}
use libfibre.Base.{List, [], ◌∷◌, ◌++◌, ◌==◌, leb, if◌then◌else◌, length, length-append}
use libfibre.Base.{Bool-cases, inl, inr}
use libfibre.FibreSpecific.{get, put, nulls, resize, grow_loop, grow}

pub get-put :
    (xs : List ℕ) (i j v : ℕ)
    → i < length xs
    → get (put xs i v) j ≡ (if j == i then v else get xs j)
unfolding get put
get-put [] i j v l = absurd (omega arith)
get-put (x ∷ xs) zero zero v l = refl
get-put (x ∷ xs) zero (suc j) v l = ground arith
get-put (x ∷ xs) (suc i) zero v l = ground arith
get-put (x ∷ xs) (suc i) (suc j) v l = ground (arith, get-put xs i j v (omega arith))

pub length-put : (xs : List ℕ) (i v : ℕ) → length (put xs i v) ≡ length xs
unfolding put
length-put [] i v = refl
length-put (x ∷ xs) zero v = refl
length-put (x ∷ xs) (suc i) v = ap suc (length-put xs i v)

get-nulls : (n i : ℕ) → get (nulls n) i ≡ 0
unfolding get nulls
get-nulls zero i = refl
get-nulls (suc n) zero = refl
get-nulls (suc n) (suc i) = get-nulls n i

get-append_nulls : (xs : List ℕ) (n i : ℕ) → get (xs ++ nulls n) i ≡ get xs i
unfolding get
get-append_nulls [] n i = get-nulls n i
get-append_nulls (x ∷ xs) n zero = refl
get-append_nulls (x ∷ xs) n (suc i) = get-append_nulls xs n i

length-nulls : (n : ℕ) → length (nulls n) ≡ n
unfolding nulls
length-nulls zero = refl
length-nulls (suc n) = ap suc (length-nulls n)

pub get-resize : (xs : List ℕ) (n i : ℕ) → get (resize xs n) i ≡ get xs i
unfolding resize
get-resize xs n i = get-append_nulls xs (n - length xs) i

pub length-resize : (xs : List ℕ) (n : ℕ) → length xs ≤ n → length (resize xs n) ≡ n
unfolding resize
length-resize xs n l =
    length-append xs (nulls (n - length xs)) ∙ omega (arith, length-nulls (n - length xs))

get-grow_loop : (fuel idx : ℕ) (xs : List ℕ) (i : ℕ) → get (grow_loop fuel idx xs) i ≡ get xs i
unfolding grow_loop
get-grow_loop zero idx xs i = refl
get-grow_loop (suc fuel) idx xs i = elim (Bool-cases (leb (length xs) idx)) [
  | inl e ↦
      rw e (get-grow_loop fuel idx (resize xs (length xs * 2)) i ∙ get-resize xs (length xs * 2) i)
  | inr e ↦ rw e refl
]

-- Each round at least adds one element.
grow_loop-reaches :
    (fuel idx : ℕ) (xs : List ℕ)
    → 0 < length xs
    → idx < length xs + fuel
    → idx < length (grow_loop fuel idx xs)
unfolding grow_loop
grow_loop-reaches zero idx xs p l = omega arith
grow_loop-reaches (suc fuel) idx xs p l = elim (Bool-cases (leb (length xs) idx)) [
  | inl e ↦
      let twice = length-resize xs (length xs * 2) (omega arith) in
      rw e (
        grow_loop-reaches fuel idx (resize xs (length xs * 2)) (omega (arith, twice))
          (omega (arith, twice)))
  | inr e ↦ rw e (ground (arith, e))
]

-- The vector grows until it has the index, and what it held stays.
pub grow_reaches :
    (idx : ℕ) (xs : List ℕ) (i : ℕ)
    → (idx < length (grow idx xs)) × (get (grow idx xs) i ≡ get xs i)
unfolding grow
grow_reaches idx xs i = elim (Bool-cases (leb (length xs) idx)) [
  | inl e ↦ elim (Bool-cases (length xs == 0)) [
    | inl f ↦
        let one = length-resize xs 1 (ground (arith, f)) in
        rw (e, f)
          (
            grow_loop-reaches (suc idx) idx (resize xs 1) (omega (arith, one)) (omega (arith, one)),
            get-grow_loop (suc idx) idx (resize xs 1) i ∙ get-resize xs 1 i,
          )
    | inr f ↦
        rw (e, f)
          (
            grow_loop-reaches (suc idx) idx xs (ground (arith, f)) (omega arith),
            get-grow_loop (suc idx) idx xs i,
          )
  ]
  | inr e ↦ rw e (ground (arith, e), refl)
]

grow_loop-le : (fuel idx : ℕ) (xs : List ℕ) → length xs ≤ length (grow_loop fuel idx xs)
unfolding grow_loop
grow_loop-le zero idx xs = omega arith
grow_loop-le (suc fuel) idx xs = elim (Bool-cases (leb (length xs) idx)) [
  | inl e ↦ rw e (
      omega (
        arith,
        length-resize xs (length xs * 2) (omega arith),
        grow_loop-le fuel idx (resize xs (length xs * 2)),
      ))
  | inr e ↦ rw e (omega arith)
]

pub grow-le : (idx : ℕ) (xs : List ℕ) → length xs ≤ length (grow idx xs)
unfolding grow
grow-le idx xs = elim (Bool-cases (leb (length xs) idx)) [
  | inl e ↦ elim (Bool-cases (length xs == 0)) [
    | inl f ↦ rw (e, f) (ground (arith, f))
    | inr f ↦ rw (e, f) (grow_loop-le (suc idx) idx xs)
  ]
  | inr e ↦ rw e (omega arith)
]

-- ===== src/Platform/Scan.antt =====
-- The searches find the lowest bit that is set, or clear, from a position on.
use native.Mathlib.Nat.{pow-suc}
use libfibre.Base.{ℕ, zero, suc, ◌+◌, ◌/◌, ◌%◌, ◌^◌, ◌≤◌, ◌<◌, ◌≡◌, refl, sym, ap, ◌∙◌, arith}
use libfibre.Base.{Bool, true, false, ◌==◌, ltb, if◌then◌else◌, Bool-cases, inl, inr}
use libfibre.Platform.{bitsize, ctz, lsb, popcount_of}
use libfibre.Platform.Bits.{bit, bit-zero}

-- The least number below `n` with the property, `n` if there is none.
unfoldable pub first : ℕ → (ℕ → Bool) → ℕ
first zero p = 0
first (suc n) p = let rest = first n (λ i. p (suc i)) in if p 0 then 0 else suc rest

-- The number of those below `n` that have the property.
unfoldable pub tally : ℕ → (ℕ → Bool) → ℕ
tally zero p = 0
tally (suc n) p = (if p 0 then 1 else 0) + tally n (λ i. p (suc i))

pub first-cong : (n : ℕ) (p q : ℕ → Bool) → ((i : ℕ) → i < n → p i ≡ q i) → first n p ≡ first n q
unfolding first
first-cong zero p q h = refl
first-cong (suc n) p q h = ground (
  arith,
  h 0 (omega arith),
  first-cong n (λ i. p (suc i)) (λ i. q (suc i)) (λ i l. h (suc i) (omega arith)),
)

pub tally-cong : (n : ℕ) (p q : ℕ → Bool) → ((i : ℕ) → i < n → p i ≡ q i) → tally n p ≡ tally n q
unfolding tally
tally-cong zero p q h = refl
tally-cong (suc n) p q h = ground (
  arith,
  h 0 (omega arith),
  tally-cong n (λ i. p (suc i)) (λ i. q (suc i)) (λ i l. h (suc i) (omega arith)),
)

pub first-le : (n : ℕ) (p : ℕ → Bool) → first n p ≤ n
unfolding first
first-le zero p = omega arith
first-le (suc n) p = ground (arith, first-le n (λ i. p (suc i)))

pub first-has : (n : ℕ) (p : ℕ → Bool) → first n p < n → p (first n p) ≡ true
unfolding first
first-has zero p l = absurd (omega arith)
first-has (suc n) p l = elim (Bool-cases (p 0)) [
  | inl e ↦ ground (arith, e)
  | inr e ↦ ground (arith, e, first-has n (λ i. p (suc i)))
]

pub first-least : (n : ℕ) (p : ℕ → Bool) (i : ℕ) → i < first n p → p i ≡ false
unfolding first
first-least zero p i l = absurd (omega arith)
first-least (suc n) p zero l = elim (Bool-cases (p 0)) [
  | inl e ↦ absurd (ground (arith, e, l))
  | inr e ↦ e
]
first-least (suc n) p (suc i) l = elim (Bool-cases (p 0)) [
  | inl e ↦ absurd (ground (arith, e, l))
  | inr e ↦ first-least n (λ i. p (suc i)) i (ground (arith, e, l))
]

module _ (a m b : ℕ) where
  suc_branch :
      suc (if ltb a m then a else m + b) ≡ (if ltb (suc a) (suc m) then suc a else suc m + b)
  suc_branch = ground arith

  zero_branch : 0 ≡ (if ltb 0 (suc m) then 0 else b)
  zero_branch = ground arith

  nonzero_branch : (if suc m == 0 then a else b) ≡ b
  nonzero_branch = ground arith

-- The search goes on behind `m` numbers without the property.
pub first-append :
    (m n : ℕ) (p : ℕ → Bool)
    → first (m + n) p ≡ (if ltb (first m p) m then first m p else m + first n (λ i. p (m + i)))
unfolding first
first-append zero n p =
    ap (λ (k : ℕ). first k p) {x = 0 + n} {y = n} (omega arith)
    ∙ first-cong n p (λ i. p (0 + i)) (λ i l. ap p (omega arith))
    ∙ ground arith
first-append (suc m) n p =
    let longer : suc m + n ≡ suc (m + n) = omega arith in
    let tail : first n (λ i. p (suc (m + i))) ≡ first n (λ i. p (suc m + i)) =
      first-cong n _ _ (λ i l. ap p (omega arith)) in
    ap (λ (k : ℕ). first k p) longer ∙ (elim (Bool-cases (p 0)) [
      | inl e ↦ rw e (zero_branch 0 m (suc m + first n (λ i. p (suc m + i))))
      | inr e ↦ rw e (
          ap suc (first-append m n (λ i. p (suc i)))
          ∙ suc_branch (first m (λ i. p (suc i))) m (first n (λ i. p (suc (m + i))))
          ∙ ap
              (λ (t : ℕ).
                if ltb (suc (first m (λ i. p (suc i)))) (suc m)
                then suc (first m (λ i. p (suc i)))
                else suc m + t)
              tail)
    ])

pub ctz-first : (n x : ℕ) → x < 2 ^ n → 0 < x → ctz n x ≡ first n (λ i. bit i x)
unfolding ctz first bit
ctz-first zero x h z = absurd (omega arith)
ctz-first (suc n) x h z = elim (Bool-cases (x % 2 == 1)) [
  | inl e ↦ ground (arith, e)
  | inr e ↦ ground (arith, e, ctz-first n (x / 2) (omega (arith, pow-suc 2 n)) (ground (arith, e)))
]

pub first-none : (n : ℕ) (p : ℕ → Bool) → ((i : ℕ) → i < n → p i ≡ false) → first n p ≡ n
unfolding first
first-none zero p h = refl
first-none (suc n) p h =
    ground
      (arith, h 0 (omega arith), first-none n (λ i. p (suc i)) (λ i l. h (suc i) (omega arith)))

pub lsb-first : (x : ℕ) → x < 2 ^ bitsize → lsb x bitsize ≡ first bitsize (λ i. bit i x)
unfolding lsb
lsb-first zero h = sym (first-none bitsize (λ i. bit i 0) (λ i l. bit-zero i))
lsb-first (suc x) h =
    nonzero_branch bitsize x (ctz bitsize (suc x)) ∙ ctz-first bitsize (suc x) h (omega arith)

pub popcount-tally : (n x : ℕ) → popcount_of n x ≡ tally n (λ i. bit i x)
unfolding popcount_of tally bit
popcount-tally zero x = refl
popcount-tally (suc n) x = ground (arith, popcount-tally n (x / 2))

ctz-lt : (n x : ℕ) → x < 2 ^ n → 0 < x → ctz n x < n
unfolding ctz
ctz-lt zero x h z = absurd (omega arith)
ctz-lt (suc n) x h z = elim (Bool-cases (x % 2 == 1)) [
  | inl e ↦ ground (arith, e)
  | inr e ↦ ground (arith, e, ctz-lt n (x / 2) (omega (arith, pow-suc 2 n)) (ground (arith, e)))
]

pub lsb-le : (x : ℕ) → x < 2 ^ bitsize → lsb x bitsize ≤ bitsize
lsb-le x h = omega (arith, lsb-first x h, first-le bitsize (λ i. bit i x))

pub lsb-lt : (x : ℕ) → x < 2 ^ bitsize → (x == 0) ≡ false → lsb x bitsize < bitsize
unfolding lsb
lsb-lt x h e = rw e (ctz-lt bitsize x h (ground (arith, e)))

pub lsb-none : (x : ℕ) → (x == 0) ≡ true → lsb x bitsize ≡ bitsize
unfolding lsb
lsb-none x e = rw e refl

-- The search that ends at its bound has seen none.
pub first-end : (n : ℕ) (p : ℕ → Bool) → first n p ≡ n → (i : ℕ) → i < n → p i ≡ false
first-end n p e i l = first-least n p i (omega arith)

pub tally-append : (m n : ℕ) (p : ℕ → Bool) → tally (m + n) p ≡ tally m p + tally n (λ i. p (m + i))
unfolding tally
tally-append zero n p =
    ap (λ (k : ℕ). tally k p) {x = 0 + n} {y = n} (omega arith)
    ∙ tally-cong n p (λ i. p (0 + i)) (λ i l. ap p (omega arith))
    ∙ omega arith
tally-append (suc m) n p =
    ap (λ (k : ℕ). tally k p) {x = suc m + n} {y = suc (m + n)} (omega arith)
    ∙ omega (
      arith,
      tally-append m n (λ i. p (suc i)),
      tally-cong n (λ i. p (suc (m + i))) (λ i. p (suc m + i)) (λ i l. ap p (omega arith)),
    )

pub first-min : (n : ℕ) (p : ℕ → Bool) (i : ℕ) → p i ≡ true → first n p ≤ i
first-min n p i e = elim (Bool-cases (ltb i (first n p))) [
  | inl l ↦ absurd (ground (arith, e, first-least n p i (ground (arith, l))))
  | inr l ↦ ground (arith, l)
]

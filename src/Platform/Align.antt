-- ===== src/Platform/Align.antt =====
-- Alignment to a power of two is arithmetic.
use Prim.Native.Nat.{bit_and}
use native.Mathlib.Nat.{
  pow-suc, one-le-pow, div-div-eq-div-mul, mod-eq-sub-div-mul, div-mul-le_self, lt-div-mul-add,
  pow-le-pow_right, mul-mod_left,
}
use libfibre.Base.{ℕ, zero, suc, ◌+◌, ◌*◌, ◌-◌, ◌/◌, ◌%◌, ◌^◌, ◌≤◌, ◌<◌, ◌≡◌, sym, ap, ◌∙◌, arith}
use libfibre.Base.{◌==◌}
use libfibre.Platform.{bitsize, limit, complement, align_up, align_down, aligned}
use libfibre.Platform.Digits.{bit_and_lowest}
use libfibre.Platform.Bits.{bit-and, bit-low_mask, bit-zero, bits_ext, bit_and-lt}

pub bit_and-limit : (w x : ℕ) → x < 2 ^ w → bit_and x (2 ^ w - 1) ≡ x
bit_and-limit w x h =
    bits_ext w (bit_and x (2 ^ w - 1)) x (bit_and-lt w x (2 ^ w - 1) h) h
      (λ i l. bit-and i x (2 ^ w - 1) ∙ ground (arith, bit-low_mask i w, l))

-- A quotient by a power of two, halved first.
module _ (j x : ℕ) where
  halved : x / 2 ^ suc j ≡ x / 2 / 2 ^ j
  halved = ap (λ (t : ℕ). x / t) (pow-suc 2 j ∙ omega arith) ∙ sym (div-div-eq-div-mul x 2 (2 ^ j))

  halved_down : x / 2 ^ suc j * 2 ^ suc j ≡ x / 2 / 2 ^ j * 2 ^ j * 2
  halved_down = rw (halved, pow-suc 2 j) (omega arith)

high_mask : (w j x : ℕ) → j ≤ w → x < 2 ^ w → bit_and x (2 ^ w - 2 ^ j) ≡ x / 2 ^ j * 2 ^ j
high_mask w zero x l h = bit_and-limit w x h ∙ ground arith
high_mask zero (suc j) x l h = absurd (omega arith)
high_mask (suc w) (suc j) x l h =
    let ih = high_mask w j (x / 2) (omega arith) (omega (arith, pow-suc 2 w)) in
    let m : (2 ^ suc w - 2 ^ suc j) / 2 ≡ 2 ^ w - 2 ^ j = omega (arith, pow-suc 2 w, pow-suc 2 j) in
    omega (
      arith,
      bit_and_lowest x (2 ^ suc w - 2 ^ suc j),
      ap (bit_and (x / 2)) m,
      ih,
      halved_down j x,
      pow-suc 2 w,
      pow-suc 2 j,
    )

pub bit_and-none : (w x : ℕ) → x < 2 ^ w → bit_and x 0 ≡ 0
bit_and-none w x h =
    bits_ext w (bit_and x 0) 0 (bit_and-lt w x 0 h) (one-le-pow w 2 (omega arith))
      (λ i l. bit-and i x 0 ∙ ground (arith, bit-zero i))

low_mask : (w j x : ℕ) → x < 2 ^ w → bit_and x (2 ^ j - 1) ≡ x % 2 ^ j
low_mask w zero x h = bit_and-none w x h ∙ omega arith
low_mask zero (suc j) x h =
    ground (arith, low_mask zero j 0 (omega arith), bit_and_lowest x (2 ^ suc j - 1), pow-suc 2 j)
low_mask (suc w) (suc j) x h =
    let m : (2 ^ suc j - 1) / 2 ≡ 2 ^ j - 1 = omega (arith, pow-suc 2 j, one-le-pow j 2) in
    omega (
      arith,
      bit_and_lowest x (2 ^ suc j - 1),
      ap (bit_and (x / 2)) m,
      low_mask w j (x / 2) (omega (arith, pow-suc 2 w)),
      mod-eq-sub-div-mul x (2 ^ suc j),
      mod-eq-sub-div-mul (x / 2) (2 ^ j),
      halved_down j x,
      div-mul-le_self (x / 2) (2 ^ j),
      pow-suc 2 j,
      one-le-pow j 2,
    )

-- The mask of `align_up` and `align_down`.
module _ (j : ℕ) (l : j < bitsize) where
  power_fits : 2 ^ j ≤ 2 ^ 63
  power_fits = pow-le-pow_right {n = 2} (omega arith) {i = j} {j = 63} (omega arith)

  pred_power : (2 ^ j + limit) % 2 ^ bitsize ≡ 2 ^ j - 1
  pred_power = omega (arith, power_fits, one-le-pow j 2)

  align_mask : complement ((2 ^ j + limit) % 2 ^ bitsize) ≡ 2 ^ bitsize - 2 ^ j
  align_mask = omega (arith, power_fits, one-le-pow j 2)

  pub align_down-power : (x : ℕ) → x < 2 ^ bitsize → align_down x (2 ^ j) ≡ x / 2 ^ j * 2 ^ j
  align_down-power x h = ap (bit_and x) align_mask ∙ high_mask bitsize j x (omega arith) h

-- For a power of two below 2^64, and a sum that does not overflow, `align_up` is the least multiple that
-- is not below the number, `align_down` the greatest that is not above it, and `aligned` tells multiples.
pub align_multiples :
    (j x : ℕ)
    → j < bitsize
    → x + 2 ^ j ≤ 2 ^ bitsize
    → (align_up x (2 ^ j) % 2 ^ j ≡ 0)
      × (x ≤ align_up x (2 ^ j))
      × (align_up x (2 ^ j) < x + 2 ^ j)
      × (align_down x (2 ^ j) % 2 ^ j ≡ 0)
      × (align_down x (2 ^ j) ≤ x)
      × (x < align_down x (2 ^ j) + 2 ^ j)
      × (aligned x (2 ^ j) ≡ (x % 2 ^ j == 0))
align_multiples j x l h =
    let positive : 0 < 2 ^ j = one-le-pow j 2 (omega arith) in
    let top : ℕ = x + (2 ^ j - 1) in
    let sum : (x + 2 ^ j + limit) % 2 ^ bitsize ≡ top = omega (arith, power_fits j l) in
    let up : align_up x (2 ^ j) ≡ top / 2 ^ j * 2 ^ j =
      ap (bit_and ((x + 2 ^ j + limit) % 2 ^ bitsize)) (align_mask j l)
      ∙ ap (λ (t : ℕ). bit_and t (2 ^ bitsize - 2 ^ j)) sum
      ∙ high_mask bitsize j top (omega arith) (omega (arith, positive)) in
    let down = align_down-power j l x (omega (arith, positive)) in
    (
      ap (λ (t : ℕ). t % 2 ^ j) up ∙ mul-mod_left (top / 2 ^ j) (2 ^ j),
      omega (arith, up, lt-div-mul-add {a = top} positive, positive),
      omega (arith, up, div-mul-le_self top (2 ^ j), positive),
      ap (λ (t : ℕ). t % 2 ^ j) down ∙ mul-mod_left (x / 2 ^ j) (2 ^ j),
      omega (arith, down, div-mul-le_self x (2 ^ j)),
      omega (arith, down, lt-div-mul-add {a = x} positive),
      ap (λ (t : ℕ). t == 0)
          (ap (bit_and x) (pred_power j l) ∙ low_mask bitsize j x (omega (arith, positive))),
    )

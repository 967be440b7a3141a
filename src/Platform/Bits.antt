-- ===== src/Platform/Bits.antt =====
-- The bits of a number, and those of the results of bit operations.
use Prim.Native.Nat.{bit_and, bit_or, bit_xor, bit_and-bitwise, differ, min, max}
use native.Mathlib.Nat.{pow-suc, one-le-pow}
use libfibre.Base.{ℕ, zero, suc, ◌+◌, ◌*◌, ◌-◌, ◌/◌, ◌%◌, ◌^◌, ◌≤◌, ◌<◌, ◌≡◌, refl, ap, ◌∙◌, arith}
use libfibre.Base.{Bool, true, false, not, ◌&&◌, ◌||◌, ◌==◌, ltb}
use libfibre.Platform.Digits.{bit_and_lowest, bit_or_lowest, bit_xor_lowest}

unfoldable pub bit : ℕ → ℕ → Bool
bit zero a = a % 2 == 1
bit (suc i) a = bit i (a / 2)

half : (q m : ℕ) → m < 2 → (q * 2 + m) / 2 ≡ q
half q m h = omega arith

pub bit-and : (i a b : ℕ) → bit i (bit_and a b) ≡ (bit i a && bit i b)
unfolding bit
bit-and zero a b = ground (arith, bit_and_lowest a b)
bit-and (suc i) a b =
    ap (λ (t : ℕ). bit i (t / 2)) (bit_and_lowest a b)
    ∙ ap (bit i) (half (bit_and (a / 2) (b / 2)) (min (a % 2) (b % 2)) (omega arith))
    ∙ bit-and i (a / 2) (b / 2)

pub bit-or : (i a b : ℕ) → bit i (bit_or a b) ≡ (bit i a || bit i b)
unfolding bit
bit-or zero a b = ground (arith, bit_or_lowest a b)
bit-or (suc i) a b =
    ap (λ (t : ℕ). bit i (t / 2)) (bit_or_lowest a b)
    ∙ ap (bit i) (half (bit_or (a / 2) (b / 2)) (max (a % 2) (b % 2)) (omega arith))
    ∙ bit-or i (a / 2) (b / 2)

differ-lt : (a b : ℕ) → differ (a % 2) (b % 2) < 2
differ-lt a b = below (a % 2) (b % 2) (omega arith) (omega arith)
  where
    below : (x y : ℕ) → x < 2 → y < 2 → differ x y < 2
    below zero y h k = ground arith
    below (suc zero) zero h k = ground arith
    below (suc zero) (suc y) h k = ground arith
    below (suc (suc x)) y h k = absurd (omega arith)

abbrev pub xor : Bool → Bool → Bool
xor true b = not b
xor false b = b

pub bit-xor : (i a b : ℕ) → bit i (bit_xor a b) ≡ xor (bit i a) (bit i b)
unfolding bit
bit-xor zero a b = ground (arith, bit_xor_lowest a b)
bit-xor (suc i) a b =
    ap (λ (t : ℕ). bit i (t / 2)) (bit_xor_lowest a b)
    ∙ ap (bit i) (half (bit_xor (a / 2) (b / 2)) (differ (a % 2) (b % 2)) (differ-lt a b))
    ∙ bit-xor i (a / 2) (b / 2)

pub bit-not : (w i a : ℕ) → a < 2 ^ w → i < w → bit i (2 ^ w - 1 - a) ≡ not (bit i a)
unfolding bit
bit-not zero i a h l = absurd (omega arith)
bit-not (suc w) zero a h l = ground (arith, pow-suc 2 w, one-le-pow w 2)
bit-not (suc w) (suc i) a h l =
    ap (bit i) {x = (2 ^ suc w - 1 - a) / 2} {y = 2 ^ w - 1 - a / 2}
      (omega (arith, pow-suc 2 w, one-le-pow w 2))
    ∙ bit-not w i (a / 2) (omega (arith, pow-suc 2 w)) (omega arith)

pub bit-zero : (i : ℕ) → bit i 0 ≡ false
unfolding bit
bit-zero zero = refl
bit-zero (suc i) = bit-zero i

-- A number has no bits beyond its width.
pub bit-beyond : (w i a : ℕ) → a < 2 ^ w → w ≤ i → bit i a ≡ false
unfolding bit
bit-beyond zero i a h l = ap (bit i) {y = 0} (omega arith) ∙ bit-zero i
bit-beyond (suc w) zero a h l = absurd (omega arith)
bit-beyond (suc w) (suc i) a h l = bit-beyond w i (a / 2) (omega (arith, pow-suc 2 w)) (omega arith)

pub bit-pow : (i j : ℕ) → bit i (2 ^ j) ≡ (i == j)
unfolding bit
bit-pow zero zero = refl
bit-pow zero (suc j) = ground (arith, pow-suc 2 j)
bit-pow (suc i) zero = bit-zero i ∙ ground arith
bit-pow (suc i) (suc j) =
    ap (bit i) {x = 2 ^ suc j / 2} {y = 2 ^ j} (omega (arith, pow-suc 2 j))
    ∙ bit-pow i j
    ∙ ground arith

pub bit-low_mask : (i j : ℕ) → bit i (2 ^ j - 1) ≡ ltb i j
unfolding bit
bit-low_mask i zero = bit-zero i ∙ ground arith
bit-low_mask zero (suc j) = ground (arith, pow-suc 2 j, one-le-pow j 2)
bit-low_mask (suc i) (suc j) =
    ap (bit i) {x = (2 ^ suc j - 1) / 2} {y = 2 ^ j - 1}
      (omega (arith, pow-suc 2 j, one-le-pow j 2))
    ∙ bit-low_mask i j
    ∙ ground arith

-- Two words with the same bits are the same.
pub bits_ext : (w a b : ℕ) → a < 2 ^ w → b < 2 ^ w → ((i : ℕ) → i < w → bit i a ≡ bit i b) → a ≡ b
unfolding bit
bits_ext zero a b h k e = omega arith
bits_ext (suc w) a b h k e =
    let upper : a / 2 ≡ b / 2 =
      bits_ext w (a / 2) (b / 2) (omega (arith, pow-suc 2 w)) (omega (arith, pow-suc 2 w))
        (λ i l. e (suc i) (omega arith)) in
    ground (arith, upper, e 0 (omega arith))

pub bit_and-lt : (w a b : ℕ) → a < 2 ^ w → bit_and a b < 2 ^ w
bit_and-lt zero zero b h = ground (arith, bit_and-bitwise 0 b)
bit_and-lt zero (suc a) b h = absurd (omega arith)
bit_and-lt (suc w) a b h = omega (
  arith,
  pow-suc 2 w,
  bit_and_lowest a b,
  bit_and-lt w (a / 2) (b / 2) (omega (arith, pow-suc 2 w)),
)

pub bit_or-lt : (w a b : ℕ) → a < 2 ^ w → b < 2 ^ w → bit_or a b < 2 ^ w
bit_or-lt zero zero zero h k = ground (arith, bit-or 0 0 0)
bit_or-lt zero zero (suc b) h k = absurd (omega arith)
bit_or-lt zero (suc a) b h k = absurd (omega arith)
bit_or-lt (suc w) a b h k = omega (
  arith,
  pow-suc 2 w,
  bit_or_lowest a b,
  bit_or-lt w (a / 2) (b / 2) (omega (arith, pow-suc 2 w)) (omega (arith, pow-suc 2 w)),
)

pub bit_xor-lt : (w a b : ℕ) → a < 2 ^ w → b < 2 ^ w → bit_xor a b < 2 ^ w
bit_xor-lt zero zero zero h k = ground (arith, bit-xor 0 0 0)
bit_xor-lt zero zero (suc b) h k = absurd (omega arith)
bit_xor-lt zero (suc a) b h k = absurd (omega arith)
bit_xor-lt (suc w) a b h k = ground (
  arith,
  pow-suc 2 w,
  bit_xor_lowest a b,
  differ-lt a b,
  bit_xor-lt w (a / 2) (b / 2) (omega (arith, pow-suc 2 w)) (omega (arith, pow-suc 2 w)),
)

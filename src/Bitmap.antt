-- ===== src/Bitmap.antt =====
-- src/runtime/Bitmap.h: sets of small numbers as the bits of machine words.
pub mod Members
pub mod Searches
pub mod Count
pub mod Word
pub mod Hierarchy
mod Tests
use Prim.Native.Nat.{bit_and, bit_or, bit_xor}
use libfibre.Base.{
  ℕ, zero, suc, ◌+◌, ◌*◌, ◌/◌, ◌%◌, ◌-◌, Bool, not, ◌==◌, ltb, if◌then◌else◌, update,
}
use libfibre.Platform.{
  bitsize, limit, complement, pow2, bitmask, datafield, lsb, popcount, multiscan, multiscan_next,
}

-- `bit_set`, `bit_clr`, `bit_flp` and `bit_tst`; the atomic variants have the same effect.
unfoldable pub bit_set : (a idx : ℕ) → ℕ
bit_set a idx = bit_or a (pow2 idx)

unfoldable pub bit_clr : (a idx : ℕ) → ℕ
bit_clr a idx = bit_and a (complement (pow2 idx))

unfoldable pub bit_flp : (a idx : ℕ) → ℕ
bit_flp a idx = bit_xor a (pow2 idx)

unfoldable pub bit_tst : (a idx : ℕ) → Bool
bit_tst a idx = not (bit_and a (pow2 idx) == 0)

-- The helpers of `empty`, `full` and `count`, for the words from `x` down to 0.
unfoldable pub empty_helper : (x : ℕ) → (bits : ℕ → ℕ) → ℕ
empty_helper zero bits = bits 0
empty_helper (suc x) bits = bit_or (bits (suc x)) (empty_helper x bits)

unfoldable pub full_helper : (x : ℕ) → (bits : ℕ → ℕ) → ℕ
full_helper zero bits = bits 0
full_helper (suc x) bits = bit_and (bits (suc x)) (full_helper x bits)

unfoldable pub count_helper : (x : ℕ) → (bits : ℕ → ℕ) → ℕ
unfolding popcount
count_helper zero bits = popcount (bits 0)
count_helper (suc x) bits = popcount (bits (suc x)) + count_helper x bits

-- class Bitmap, of `n` words.
abbrev pub Bitmap : Type 0
Bitmap = ℕ → ℕ

-- The constructor sets the first word only, and so does `filled`.
unfoldable pub made : (b : ℕ) → Bitmap
made b i = if i == 0 then b else 0

unfoldable pub filled : Bitmap
unfolding made
filled = made limit

abbrev pub valid : (n idx : ℕ) → Bool
valid n idx = ltb idx (n * bitsize)

unfoldable pub set_b : (n : ℕ) → Bitmap → Bitmap
set_b n bits i = if ltb i n then limit else bits i

unfoldable pub clr_b : (n : ℕ) → Bitmap → Bitmap
clr_b n bits i = if ltb i n then 0 else bits i

unfoldable pub flp_b : (n : ℕ) → Bitmap → Bitmap
flp_b n bits i = if ltb i n then complement (bits i) else bits i

unfoldable pub set : (idx : ℕ) → Bitmap → Bitmap
unfolding bit_set
set idx bits = update bits (idx / bitsize) (bit_set (bits (idx / bitsize)) (idx % bitsize))

unfoldable pub clr : (idx : ℕ) → Bitmap → Bitmap
unfolding bit_clr
clr idx bits = update bits (idx / bitsize) (bit_clr (bits (idx / bitsize)) (idx % bitsize))

unfoldable pub flp : (idx : ℕ) → Bitmap → Bitmap
unfolding bit_flp
flp idx bits = update bits (idx / bitsize) (bit_flp (bits (idx / bitsize)) (idx % bitsize))

unfoldable pub test : (idx : ℕ) → Bitmap → Bool
unfolding bit_tst
test idx bits = bit_tst (bits (idx / bitsize)) (idx % bitsize)

unfoldable pub is_empty : (n : ℕ) → Bitmap → Bool
unfolding empty_helper
is_empty n bits = empty_helper (n - 1) bits == 0

unfoldable pub is_full : (n : ℕ) → Bitmap → Bool
unfolding full_helper
is_full n bits = full_helper (n - 1) bits == limit

unfoldable pub count : (n : ℕ) → Bitmap → ℕ
unfolding count_helper
count n bits = count_helper (n - 1) bits

unfoldable pub find : (n : ℕ) → (findset : Bool) → Bitmap → ℕ
unfolding multiscan
find n findset bits = multiscan n bits findset

unfoldable pub findnext : (n : ℕ) → (idx : ℕ) → (findset : Bool) → Bitmap → ℕ
unfolding multiscan_next
findnext n idx findset bits = multiscan_next n bits idx findset

-- ===== src/Platform.antt =====
-- src/runtime/Platform.h: arithmetic on machine words of 64 bits, and the search for bits in them.
pub mod Digits
pub mod Bits
pub mod Scan
pub mod Multiscan
pub mod Onward
pub mod Align
mod Tests
use Prim.Native.Nat.{bit_and}
use libfibre.Base.{
  ℕ, zero, suc, ◌+◌, ◌-◌, ◌*◌, ◌/◌, ◌%◌, ◌^◌, Bool, true, false, ◌==◌, leb, ltb, if◌then◌else◌,
}

abbrev pub bitsize : ℕ
bitsize = 64

abbrev pub limit : ℕ
limit = 2 ^ bitsize - 1

-- `~x`
abbrev pub complement : ℕ → ℕ
complement x = limit - x

-- `pow2`, `T(1) << x`; a shift by the width or more is undefined, and 0 here.
abbrev pub pow2 : ℕ → ℕ
pow2 x = 2 ^ x % 2 ^ bitsize

abbrev pub is_pow2 : ℕ → Bool
is_pow2 x = bit_and x ((x + limit) % 2 ^ bitsize) == 0

abbrev pub align_up : (x a : ℕ) → ℕ
align_up x a = bit_and ((x + a + limit) % 2 ^ bitsize) (complement ((a + limit) % 2 ^ bitsize))

abbrev pub align_down : (x a : ℕ) → ℕ
align_down x a = bit_and x (complement ((a + limit) % 2 ^ bitsize))

abbrev pub aligned : (x a : ℕ) → Bool
aligned x a = bit_and x ((a + limit) % 2 ^ bitsize) == 0

abbrev pub divup : (n d : ℕ) → ℕ
divup n d = ((n + limit) % 2 ^ bitsize / d + 1) % 2 ^ bitsize

-- `bitmask` of a width
abbrev pub bitmask : (width : ℕ) → ℕ
bitmask width = if width == bitsize then limit else (pow2 width + limit) % 2 ^ bitsize

-- The compiler's count of trailing zeros, for a number of `n` bits that is not 0.
unfoldable pub ctz : (n x : ℕ) → ℕ
ctz zero x = 0
ctz (suc n) x = let rest = ctz n (x / 2) in if x % 2 == 1 then 0 else suc rest

-- `lsb`, the lowest bit that is set, `alt` if there is none.
unfoldable pub lsb : (x alt : ℕ) → ℕ
unfolding ctz
lsb x alt = if x == 0 then alt else ctz bitsize x

-- The compiler's population count, of a number of `n` bits.
unfoldable pub popcount_of : (n x : ℕ) → ℕ
popcount_of zero x = 0
popcount_of (suc n) x = x % 2 + popcount_of n (x / 2)

unfoldable pub popcount : ℕ → ℕ
unfolding popcount_of
popcount x = popcount_of bitsize x

-- What a search sees of a word.
abbrev pub datafield : (findset : Bool) → ℕ → ℕ
datafield findset x = if findset then x else complement x

-- The loop of `multiscan_next` at word `i`, with `n` more behind it; `field` is what is left of word `i`.
unfoldable pub multiscan_loop : (n i result field : ℕ) → (words : ℕ → ℕ) → (findset : Bool) → ℕ
unfolding lsb
multiscan_loop zero i result field words findset = result + lsb field bitsize
multiscan_loop (suc n) i result field words findset =
    let b : ℕ = lsb field bitsize in
    let deeper : ℕ =
      multiscan_loop n (i + 1) (result + b) (datafield findset (words (i + 1))) words findset in
    if ltb b bitsize then result + b else deeper

-- `multiscan_next`, in `n` words
unfoldable pub multiscan_next : (n : ℕ) → (words : ℕ → ℕ) → (idx : ℕ) → (findset : Bool) → ℕ
unfolding multiscan_loop
multiscan_next n words idx findset =
    let i : ℕ = idx / bitsize in
    if leb (n * bitsize) idx
    then n * bitsize
    else multiscan_loop (n - 1 - i) i (align_down idx bitsize)
        (bit_and (datafield findset (words i)) (complement (bitmask (idx % bitsize)))) words findset

-- The loop of `multiscan` over the `n` words from `i` on; `mask` stays at all ones until a word has shown
-- a bit.
unfoldable pub multiscan_rest : (n i result mask : ℕ) → (words : ℕ → ℕ) → (findset : Bool) → ℕ
unfolding lsb
multiscan_rest zero i result mask words findset = result
multiscan_rest (suc n) i result mask words findset =
    let field : ℕ = datafield findset (words i) in
    multiscan_rest n (i + 1) (result + bit_and (lsb field bitsize) mask)
      (if field == 0 then mask else 0) words findset

-- `multiscan` on x86-64, in `n` words
unfoldable pub multiscan : (n : ℕ) → (words : ℕ → ℕ) → (findset : Bool) → ℕ
unfolding multiscan_rest
multiscan n words findset = multiscan_rest n 0 0 limit words findset

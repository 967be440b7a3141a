-- ===== src/Bitmap/Word.antt =====
-- The specialised class Bitmap of src/runtime/Bitmap.h, of one word.
use Prim.Native.Nat.{bit_and}
use libfibre.Base.{ℕ, ◌^◌, ◌<◌, ◌≡◌, sym, ap, ◌∙◌, arith}
use libfibre.Base.{Bool, not, ◌&&◌, ◌||◌, ◌==◌, leb}
use libfibre.Platform.{bitsize, complement, bitmask, datafield, lsb}
use libfibre.Platform.Bits.{bit, bit_and-lt}
use libfibre.Platform.Scan.{first, first-cong, lsb-first}
use libfibre.Platform.Multiscan.{wanted, datafield-lt, bit-datafield}
use libfibre.Platform.Onward.{bit-masked}
use libfibre.Bitmap.{bit_set, bit_clr, bit_tst}
use libfibre.Bitmap.Members.{bit_tst_lem, bit-set, bit-clr, bit_set-lt, bit_clr-lt}
use libfibre.Bitmap.Searches
use libfibre.Bitmap

unfoldable pub set : (idx : ℕ) → ℕ → ℕ
unfolding bit_set
set idx bits = bit_set bits idx

unfoldable pub clr : (idx : ℕ) → ℕ → ℕ
unfolding bit_clr
clr idx bits = bit_clr bits idx

unfoldable pub test : (idx : ℕ) → ℕ → Bool
unfolding bit_tst
test idx bits = bit_tst bits idx

unfoldable pub find : (findset : Bool) → ℕ → ℕ
unfolding lsb
find findset bits = lsb (datafield findset bits) bitsize

unfoldable pub findnext : (idx : ℕ) → (findset : Bool) → ℕ → ℕ
unfolding lsb
findnext idx findset bits =
    lsb (bit_and (datafield findset bits) (complement (bitmask idx))) bitsize

module _ (bits : ℕ) (h : bits < 2 ^ bitsize) where
  wanted-test :
      (findset : Bool) (k : ℕ)
      → k < bitsize
      → bit k (datafield findset bits) ≡ wanted findset (test k bits)
  unfolding test
  wanted-test findset k l =
      bit-datafield findset k bits h l ∙ ap (wanted findset) (sym (bit_tst_lem k l bits h))

  pub find-first :
      (findset : Bool) → find findset bits ≡ first bitsize (λ k. wanted findset (test k bits))
  unfolding find
  find-first findset =
      lsb-first (datafield findset bits) (datafield-lt findset bits h)
      ∙ first-cong bitsize (λ k. bit k (datafield findset bits)) _ (λ k l. wanted-test findset k l)

  pub findnext-first :
      (idx : ℕ) (findset : Bool)
      → idx < bitsize
      → findnext idx findset bits ≡ first bitsize (λ k. leb idx k && wanted findset (test k bits))
  unfolding findnext
  findnext-first idx findset l =
      lsb-first (bit_and (datafield findset bits) (complement (bitmask idx)))
        (bit_and-lt bitsize _ _ (datafield-lt findset bits h))
      ∙ first-cong bitsize
          (λ k. bit k (bit_and (datafield findset bits) (complement (bitmask idx)))) _
          (λ k m.
            bit-masked idx l k (datafield findset bits) m
            ∙ ap (λ (b : Bool). leb idx k && b) (wanted-test findset k m))

test_agrees : (bits k : ℕ) → k < bitsize → test k bits ≡ Bitmap.test k (λ i. bits)
unfolding test Bitmap.test
test_agrees bits k m = ap (bit_tst bits) (omega arith)

-- The class of one word answers as the general one does with one word.
pub word_agrees :
    (bits idx : ℕ) (findset : Bool)
    → bits < 2 ^ bitsize
    → idx < bitsize
    → (test idx bits ≡ Bitmap.test idx (λ i. bits))
      × (find findset bits ≡ Bitmap.find 1 findset (λ i. bits))
      × (findnext idx findset bits ≡ Bitmap.findnext 1 idx findset (λ i. bits))
word_agrees bits idx findset h l = (
  test_agrees bits idx l,
  find-first bits h findset
      ∙ first-cong bitsize _ _ (λ k m. ap (wanted findset) (test_agrees bits k m))
      ∙ sym (Searches.find-first (λ i. bits) (λ i. h) 1 findset),
  findnext-first bits h idx findset l
      ∙ first-cong bitsize _ _
          (λ k m. ap (λ (b : Bool). leb idx k && wanted findset b) (test_agrees bits k m))
      ∙ sym (Searches.findnext-first (λ i. bits) (λ i. h) 1 idx findset (omega arith)),
)

-- A bit set or cleared in the word, and the others.
module _ (bits i : ℕ) (h : bits < 2 ^ bitsize) (l : i < bitsize) where
  pub set-lt : set i bits < 2 ^ bitsize
  unfolding set
  set-lt = bit_set-lt bits i h l

  pub clr-lt : clr i bits < 2 ^ bitsize
  unfolding clr
  clr-lt = bit_clr-lt bits i h l

  pub test-set : (k : ℕ) → k < bitsize → test k (set i bits) ≡ (test k bits || (k == i))
  unfolding test set
  test-set k m =
      bit_tst_lem k m (bit_set bits i) (bit_set-lt bits i h l)
      ∙ bit-set i l k bits m
      ∙ ap (λ (b : Bool). b || (k == i)) (sym (bit_tst_lem k m bits h))

  pub test-clr : (k : ℕ) → k < bitsize → test k (clr i bits) ≡ (test k bits && not (k == i))
  unfolding test clr
  test-clr k m =
      bit_tst_lem k m (bit_clr bits i) (bit_clr-lt bits i h l)
      ∙ bit-clr i l k bits m
      ∙ ap (λ (b : Bool). b && not (k == i)) (sym (bit_tst_lem k m bits h))

-- ===== src/FibreSpecific/Tests.antt =====
-- Two keys in use, 0 and 2, and the theorems there.
use Prim.Native.Nat.{bit_and-bitwise}
use libfibre.Base.{ℕ, ◌≡◌, Bool, false, ◌&&◌, ltb, leb, some, ◌>>=◌, [], ◌∷◌, refl, arith}
use libfibre.Platform.{pow2}
use libfibre.Bitmap.{bit_tst}
use libfibre.Bitmap.Word
use libfibre.FibreSpecific.{Keys, setspecific, getspecific, read, nulls, clear_specific}
use libfibre.Platform.Scan.{first}
use libfibre.FibreSpecific.Storage.{HasKeys, setspecific-getspecific}
use libfibre.FibreSpecific.Clearing.{clear_specific-first}

abbrev keys : Keys
keys = record { bitmap = 5; destructors = 1024 ∷ 0 ∷ 2048 ∷ 0 ∷ [] }

abbrev no_keys : Keys
no_keys = record { bitmap = 0; destructors = [] }

no_keys-HasKeys : HasKeys no_keys
unfolding Word.test bit_tst
no_keys-HasKeys = (omega arith, λ k. ground (arith, bit_and-bitwise 0 (pow2 k)))

setspecific-getspecific_example :
    (setspecific 2 48 keys [] >>= getspecific 0 keys) ≡ getspecific 0 keys []
unfolding Word.test
setspecific-getspecific_example = setspecific-getspecific keys [] 2 48 0 refl

-- The same keys, with room for the destructors of all 64.
abbrev roomy : Keys
unfolding nulls
roomy = record { bitmap = 5; destructors = 1024 ∷ 0 ∷ 2048 ∷ nulls 61 }

roomy-HasKeys : HasKeys roomy
unfolding nulls roomy
roomy-HasKeys = (omega arith, λ k. within k (Word.test k 5))
  where
    within : (k : ℕ) (b : Bool) → (ltb k 64 && b && leb 64 k) ≡ false
    within k b = ground arith

clear_specific-first_example : clear_specific roomy (16 ∷ 0 ∷ 32 ∷ []) ≡ some ((1024, 16) ∷ [])
unfolding Word.test read first nulls roomy
clear_specific-first_example = clear_specific-first roomy (16 ∷ 0 ∷ 32 ∷ []) roomy-HasKeys

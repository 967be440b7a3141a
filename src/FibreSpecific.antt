-- ===== src/FibreSpecific.antt =====
-- class FibreSpecific of src/libfibre/Fibre.h: the keys of fibre-local storage, which all fibres share, and the
-- values of one fibre. Pointers are numbers, 0 the null pointer. The functions of keys run under `mutex`.
pub mod Vectors
pub mod Storage
pub mod Clearing
mod Tests
use libfibre.Base.{
  ℕ, zero, suc, ◌+◌, ◌*◌, ◌-◌, Bool, true, false, not, ◌&&◌, Option, none, some, List, [], ◌∷◌,
  ◌++◌, ◌==◌, ltb, leb, if◌then◌else◌, length,
}
use libfibre.Bitmap.Word

abbrev pub fibre_keys_max : ℕ
fibre_keys_max = 64

-- The static members: the keys in use and their destructors.
pub record Keys : Type 0 where
  pub bitmap : ℕ
  pub destructors : List ℕ

-- A vector's element, 0 beyond its end, where no function below reads.
unfoldable pub get : List ℕ → ℕ → ℕ
get [] i = 0
get (x ∷ xs) zero = x
get (x ∷ xs) (suc i) = get xs i

unfoldable pub put : List ℕ → ℕ → ℕ → List ℕ
put [] i v = []
put (x ∷ xs) zero v = v ∷ xs
put (x ∷ xs) (suc i) v = x ∷ put xs i v

-- `n` null pointers, as `resize` adds them.
unfoldable pub nulls : ℕ → List ℕ
nulls zero = []
nulls (suc n) = 0 ∷ nulls n

unfoldable pub resize : List ℕ → ℕ → List ℕ
unfolding nulls
resize xs n = xs ++ nulls (n - length xs)

-- The loop that doubles a vector until it has an index; a vector that is not empty needs at most as many
-- rounds as the index says.
unfoldable pub grow_loop : (fuel : ℕ) → (idx : ℕ) → List ℕ → List ℕ
unfolding resize
grow_loop zero idx xs = xs
grow_loop (suc fuel) idx xs =
    let rest = grow_loop fuel idx (resize xs (length xs * 2)) in
    if leb (length xs) idx then rest else xs

-- What `setspecific` and `key_create` do to a vector before they write at an index.
unfoldable pub grow : (idx : ℕ) → List ℕ → List ℕ
unfolding grow_loop resize
grow idx xs =
    if leb (length xs) idx
    then grow_loop (suc idx) idx (if length xs == 0 then resize xs 1 else xs)
    else xs

-- `setspecific`; `none` if an assertion fails, as below.
unfoldable pub setspecific : (idx value : ℕ) → Keys → List ℕ → Option (List ℕ)
unfolding Word.test grow put
setspecific idx value keys values =
    if ltb idx fibre_keys_max && Word.test idx keys.bitmap
    then some (put (grow idx values) idx value)
    else none

unfoldable pub getspecific : (idx : ℕ) → Keys → List ℕ → Option ℕ
unfolding Word.test get
getspecific idx keys values =
    if ltb idx fibre_keys_max && Word.test idx keys.bitmap
    then some (if ltb idx (length values) then get values idx else 0)
    else none

unfoldable pub key_create : (d : ℕ) → Keys → Option (ℕ × Keys)
unfolding Word.find Word.set grow put
key_create d keys =
    let idx : ℕ = Word.find false keys.bitmap in
    if ltb idx fibre_keys_max
    then some (
      idx,
      record {
        bitmap = Word.set idx keys.bitmap;
        destructors = put (grow idx keys.destructors) idx d;
      },
    )
    else none

unfoldable pub key_delete : (idx : ℕ) → Keys → Option Keys
unfolding Word.test Word.clr put
key_delete idx keys =
    if ltb idx fibre_keys_max && Word.test idx keys.bitmap
    then some
        (record { bitmap = Word.clr idx keys.bitmap; destructors = put keys.destructors idx 0 })
    else none

-- A vector's element, `none` beyond its end, where the code must not read.
unfoldable pub read : List ℕ → ℕ → Option ℕ
read [] i = none
read (x ∷ xs) zero = some x
read (x ∷ xs) (suc i) = read xs i

-- The destructor `d` with the value that it is given, unless that is null.
abbrev pub call : (d : ℕ) → Option ℕ → Option (List (ℕ × ℕ))
call d none = none
call d (some v) = some (if v == 0 then [] else (d, v) ∷ [])

abbrev pub destroy_by : (idx : ℕ) → List ℕ → Option ℕ → Option (List (ℕ × ℕ))
destroy_by idx values none = none
destroy_by idx values (some d) =
    if not (d == 0) && ltb idx (length values) then call d (read values idx) else some []

-- The destructor that is called for a key, if any, with the value it is given; `none` if a read is beyond the
-- end of a vector.
unfoldable pub destroy : (idx : ℕ) → Keys → List ℕ → Option (List (ℕ × ℕ))
unfolding read
destroy idx keys values = destroy_by idx values (read keys.destructors idx)

abbrev pub append_calls : Option (List (ℕ × ℕ)) → Option (List (ℕ × ℕ)) → Option (List (ℕ × ℕ))
append_calls none rest = none
append_calls (some calls) none = none
append_calls (some calls) (some rest) = some (calls ++ rest)

-- The loop of `clearSpecific`, with the calls it makes. Its position rises in every round but the last,
-- hence `fuel` of the number of keys is enough.
unfoldable pub clear_loop : (fuel : ℕ) → (idx start : ℕ) → Keys → List ℕ → Option (List (ℕ × ℕ))
unfolding destroy Word.findnext
clear_loop zero idx start keys values = none
clear_loop (suc fuel) idx start keys values =
    let next : ℕ = Word.findnext idx true keys.bitmap in
    let rest = clear_loop fuel next start keys values in
    if ltb start next then append_calls (destroy idx keys values) rest else destroy idx keys values

unfoldable pub clear_specific : Keys → List ℕ → Option (List (ℕ × ℕ))
unfolding Word.find clear_loop
clear_specific keys values =
    let start : ℕ = Word.find true keys.bitmap in
    if leb fibre_keys_max start then some [] else clear_loop fibre_keys_max start start keys values

-- ===== src/FibreSpecific/Clearing.antt =====
-- Which destructors are called when a fibre ends.
use libfibre.Base.{ℕ, suc, ◌^◌, ◌≤◌, ◌<◌, ◌≡◌, refl, ap, ◌∙◌, arith}
use libfibre.Base.{
  Bool, true, false, ◌&&◌, ◌||◌, ◌==◌, zero, Option, none, some, List, [], ◌∷◌, length, leb, ltb,
  if◌then◌else◌,
}
use libfibre.Base.{Bool-cases, inl, inr}
use libfibre.Platform.{bitsize}
use libfibre.Platform.Scan.{first, first-has, first-min}
use libfibre.Platform.Multiscan.{wanted}
use libfibre.Bitmap.Word
use libfibre.FibreSpecific.{
  Keys, fibre_keys_max, append_calls, get, read, destroy, clear_loop, clear_specific,
}
use libfibre.FibreSpecific.Storage.{valid_key, HasKeys}

module _ (bits : ℕ) (h : bits < 2 ^ bitsize) where
  abbrev lowest : ℕ
  lowest = Word.find true bits

  start_used : lowest < bitsize → Word.test lowest bits ≡ true
  unfolding wanted
  start_used l =
      let p : ℕ → Bool = λ k. Word.test k bits in
      let found : lowest ≡ first bitsize p = Word.find-first bits h true in
      ap p found ∙ first-has bitsize p (omega arith)

  -- A search from a member on finds that member.
  pub findnext-same :
      (idx : ℕ) → idx < bitsize → Word.test idx bits ≡ true → Word.findnext idx true bits ≡ idx
  unfolding wanted
  findnext-same idx l t =
      let p : ℕ → Bool = λ k. leb idx k && Word.test k bits in
      let next : Word.findnext idx true bits ≡ first bitsize p =
        Word.findnext-first bits h idx true l in
      let low : first bitsize p ≤ idx = first-min bitsize p idx (ground (arith, t)) in
      let high : (leb idx (first bitsize p) && Word.test (first bitsize p) bits) ≡ true =
        first-has bitsize p (omega arith) in
      ground (arith, next, low, high)

clear_loop_step :
    (fuel idx start : ℕ) (keys : Keys) (values : List ℕ)
    → clear_loop (suc fuel) idx start keys values ≡ (
        if ltb start (Word.findnext idx true keys.bitmap)
        then append_calls
            (destroy idx keys values)
            (clear_loop fuel (Word.findnext idx true keys.bitmap) start keys values)
        else destroy idx keys values)
unfolding clear_loop destroy Word.findnext
clear_loop_step fuel idx start keys values = refl

clear_loop_last :
    (fuel idx start : ℕ) (keys : Keys) (values : List ℕ)
    → ltb start (Word.findnext idx true keys.bitmap) ≡ false
    → clear_loop (suc fuel) idx start keys values ≡ destroy idx keys values
clear_loop_last fuel idx start keys values e =
    clear_loop_step fuel idx start keys values ∙ rw e refl

clear_specific_start :
    (keys : Keys) (values : List ℕ)
    → clear_specific keys values ≡ (
        if leb fibre_keys_max (Word.find true keys.bitmap)
        then some []
        else clear_loop fibre_keys_max
            (Word.find true keys.bitmap)
            (Word.find true keys.bitmap)
            keys
            values)
unfolding clear_specific clear_loop Word.find
clear_specific_start keys values = refl

read_within : (xs : List ℕ) (i : ℕ) → i < length xs → read xs i ≡ some (get xs i)
unfolding read get
read_within [] i l = absurd (omega arith)
read_within (x ∷ xs) zero l = refl
read_within (x ∷ xs) (suc i) l = read_within xs i (omega arith)

read_beyond : (xs : List ℕ) (i : ℕ) → length xs ≤ i → read xs i ≡ none
unfolding read
read_beyond [] i l = refl
read_beyond (x ∷ xs) zero l = absurd (omega arith)
read_beyond (x ∷ xs) (suc i) l = read_beyond xs i (omega arith)

-- A destructor is called with a value if both are there and neither is null.
abbrev pub called : Option ℕ → Option ℕ → List (ℕ × ℕ)
called (some d) (some v) = if d == 0 || v == 0 then [] else (d, v) ∷ []
called (some d) none = []
called none v = []

destroy_lem :
    (idx : ℕ) (keys : Keys) (values : List ℕ)
    → idx < length keys.destructors
    → destroy idx keys values ≡ some (called (read keys.destructors idx) (read values idx))
unfolding destroy
destroy_lem idx keys values l = elim (Bool-cases (ltb idx (length values))) [
  | inl e ↦
      rw (read_within keys.destructors idx l, read_within values idx (ground (arith, e)), e)
        (ground arith)
  | inr e ↦
      rw (read_within keys.destructors idx l, read_beyond values idx (ground (arith, e)), e)
        (ground arith)
]

clear_specific-find :
    (keys : Keys) (values : List ℕ)
    → keys.bitmap < 2 ^ bitsize
    → ((k : ℕ) → (valid_key k keys && leb (length keys.destructors) k) ≡ false)
    → clear_specific keys values
      ≡ some (
          if ltb (Word.find true keys.bitmap) fibre_keys_max
          then called
              (read keys.destructors (Word.find true keys.bitmap))
              (read values (Word.find true keys.bitmap))
          else [])
clear_specific-find keys values h has =
    let first_key : ℕ = Word.find true keys.bitmap in
    clear_specific_start keys values ∙ (elim (Bool-cases (leb fibre_keys_max first_key)) [
      | inl e ↦ rw (e, beyond first_key e) refl
      | inr e ↦
          let l : first_key < bitsize = ground (arith, e) in
          let used = start_used keys.bitmap h l in
          let same = findnext-same keys.bitmap h first_key l used in
          rw e (
            clear_loop_last 63 first_key first_key keys values (not_after first_key _ same)
            ∙ rw (within first_key e)
                (destroy_lem first_key keys values (ground (arith, has first_key, used, e))))
    ])
  where
    beyond : (k : ℕ) → leb fibre_keys_max k ≡ true → ltb k fibre_keys_max ≡ false
    beyond k e = ground (arith, e)

    within : (k : ℕ) → leb fibre_keys_max k ≡ false → ltb k fibre_keys_max ≡ true
    within k e = ground (arith, e)

    not_after : (k m : ℕ) → m ≡ k → ltb k m ≡ false
    not_after k m e = ground (arith, e)

-- The least key in use, or 64 if there is none.
abbrev pub least_key : Keys → ℕ
least_key keys = first fibre_keys_max (λ k. Word.test k keys.bitmap)

-- A fibre that ends calls the destructor of the least key in use, with the fibre's value for it, if the vector
-- of values has one and neither is null, and no other destructor, whatever keys are in use. The loop ends, and
-- no read is beyond the end of a vector.
pub clear_specific-first :
    (keys : Keys) (values : List ℕ)
    → HasKeys keys
    → clear_specific keys values
      ≡ some (
          if ltb (least_key keys) fibre_keys_max
          then called (read keys.destructors (least_key keys)) (read values (least_key keys))
          else [])
unfolding wanted Word.test
clear_specific-first keys values (h, has) =
    let found : Word.find true keys.bitmap ≡ least_key keys = Word.find-first keys.bitmap h true in
    rw (← found) (clear_specific-find keys values h has)

-- ===== src/FibreSpecific/Storage.antt =====
-- Keys that are created, and the values that are stored under them.
use libfibre.Base.{ℕ, zero, suc, ◌^◌, ◌≤◌, ◌<◌, ◌≡◌, refl, sym, ap, ◌∙◌, arith}
use libfibre.Base.{
  Bool, true, false, not, ◌&&◌, ◌||◌, none, some, List, [], ◌∷◌, ◌==◌, leb, ltb, if◌then◌else◌,
  length,
}
use libfibre.Base.{Bool-cases, inl, inr, ◌>>=◌}
use libfibre.Platform.{bitsize}
use libfibre.Platform.Scan.{first, first-has, first-min}
use libfibre.Platform.Multiscan.{wanted}
use libfibre.Bitmap.Word
use libfibre.FibreSpecific.{
  Keys, fibre_keys_max, get, put, grow, setspecific, getspecific, key_create, key_delete,
}
use libfibre.FibreSpecific.Vectors.{get-put, length-put, grow_reaches, grow-le}

abbrev pub valid_key : (idx : ℕ) → Keys → Bool
valid_key idx keys = ltb idx fibre_keys_max && Word.test idx keys.bitmap

-- The bitmap is a word, and no valid key is without an entry for its destructor.
abbrev pub HasKeys : Keys → Type 0
HasKeys keys =
    (keys.bitmap < 2 ^ bitsize)
    × ((k : ℕ) → (valid_key k keys && leb (length keys.destructors) k) ≡ false)

get_beyond : (xs : List ℕ) (i : ℕ) → length xs ≤ i → get xs i ≡ 0
unfolding get
get_beyond [] i l = refl
get_beyond (x ∷ xs) zero l = absurd (omega arith)
get_beyond (x ∷ xs) (suc i) l = get_beyond xs i (omega arith)

pub getspecific_lem :
    (idx : ℕ) (keys : Keys) (values : List ℕ)
    → getspecific idx keys values ≡ (if valid_key idx keys then some (get values idx) else none)
unfolding getspecific
getspecific_lem idx keys values = elim (Bool-cases (ltb idx (length values))) [
  | inl e ↦ rw e refl
  | inr e ↦ rw (e, get_beyond values idx (ground (arith, e))) refl
]

-- What a fibre stores under a valid key it reads back, and its values under other keys stay; no assertion
-- fails.
pub setspecific-getspecific :
    (keys : Keys) (values : List ℕ) (idx value k : ℕ)
    → valid_key idx keys ≡ true
    → (setspecific idx value keys values >>= getspecific k keys)
      ≡ (if k == idx then some value else getspecific k keys values)
unfolding setspecific
setspecific-getspecific keys values idx value k v =
    let reach = grow_reaches idx values k in
    let read = get-put (grow idx values) idx k value (reach.0) in
    rw v (
      getspecific_lem k keys (put (grow idx values) idx value) ∙ (elim (Bool-cases (k == idx)) [
        | inl e ↦
            let same : k ≡ idx = ground (arith, e) in
            rw (read, e, ap (λ (i : ℕ). valid_key i keys) same, v) refl
        | inr e ↦ rw (read, e, reach.1) (sym (getspecific_lem k keys values))
      ]))

-- The number that `key_create` finds.
least_free :
    (bits free : ℕ)
    → bits < 2 ^ bitsize
    → free < fibre_keys_max
    → Word.test free bits ≡ false
    → (Word.find false bits ≤ free) × (Word.test (Word.find false bits) bits ≡ false)
unfolding wanted
least_free bits free h l v =
    let p : ℕ → Bool = λ k. not (Word.test k bits) in
    let found : Word.find false bits ≡ first bitsize p = Word.find-first bits h false in
    let low : first bitsize p ≤ free = first-min bitsize p free (ap not v) in
    let none : not (Word.test (first bitsize p) bits) ≡ true = first-has bitsize p (omega arith) in
    (omega arith, ap (λ (k : ℕ). Word.test k bits) found ∙ ground (arith, none))

-- The same when one bit is set.
valid_with :
    (bits idx k : ℕ) (ds ds' : List ℕ)
    → bits < 2 ^ bitsize
    → idx < fibre_keys_max
    → valid_key k (record { bitmap = Word.set idx bits; destructors = ds' })
      ≡ (valid_key k (record { bitmap = bits; destructors = ds }) || (k == idx))
valid_with bits idx k ds ds' h l = elim (Bool-cases (ltb k fibre_keys_max)) [
  | inl e ↦ rw e (Word.test-set bits idx h l k (ground (arith, e)))
  | inr e ↦ rw e (outside k (ground (arith, e, l)))
]
  where
    outside : (j : ℕ) → (j == idx) ≡ false → false ≡ (j == idx)
    outside j e = sym e

key_below : (i free : ℕ) → i ≤ free → free < fibre_keys_max → ltb i fibre_keys_max ≡ true
key_below i free l m = ground arith

still_room :
    (keys keys' : Keys) (idx d k : ℕ)
    → HasKeys keys
    → valid_key k keys' ≡ (valid_key k keys || (k == idx))
    → length keys'.destructors ≡ length (grow idx keys.destructors)
    → (valid_key k keys' && leb (length keys'.destructors) k) ≡ false
still_room keys keys' idx d k h v e =
    ground
      (arith, v, e, h.1 k, (grow_reaches idx keys.destructors k).0, grow-le idx keys.destructors)

module _ (keys : Keys) (h : HasKeys keys) where
  valid_small : (k : ℕ) → valid_key k keys ≡ true → k < length keys.destructors
  valid_small k v = ground (arith, h.1 k, v)

  -- A key that is in use is deleted: the keys in use are the others, with their destructors.
  pub key_delete-HasKeys :
      (idx : ℕ)
      → valid_key idx keys ≡ true
      → (keys' : Keys) × (key_delete idx keys ≡ some keys')
        × HasKeys keys'
        × ((k : ℕ) → valid_key k keys' ≡ (valid_key k keys && not (k == idx)))
        × ((k : ℕ) → get keys'.destructors k ≡ (if k == idx then 0 else get keys.destructors k))
  unfolding key_delete
  key_delete-HasKeys idx v =
      let l : idx < bitsize = ground (arith, v) in
      let keys' : Keys = record {
        bitmap = Word.clr idx keys.bitmap;
        destructors = put keys.destructors idx 0;
      } in
      let valid : (k : ℕ) → valid_key k keys' ≡ (valid_key k keys && not (k == idx)) = λ k.
        elim (Bool-cases (ltb k fibre_keys_max)) [
          | inl e ↦ rw e (Word.test-clr keys.bitmap idx (h.0) l k (ground (arith, e)))
          | inr e ↦ rw e refl
        ] in
      (
        keys',
        rw v refl,
        (
          Word.clr-lt keys.bitmap idx (h.0) l,
          λ k. ground (arith, valid k, h.1 k, length-put keys.destructors idx 0),
        ),
        valid,
        λ k. get-put keys.destructors idx k 0 (valid_small idx v),
      )

  -- While a number below 64 is free a key is created: it is no greater than that number, was not in use
  -- and is now, with its destructor; other keys and destructors stay, and no assertion fails.
  pub key_create-HasKeys :
      (d free : ℕ)
      → free < fibre_keys_max
      → valid_key free keys ≡ false
      → (idx : ℕ) × (keys' : Keys) × (key_create d keys ≡ some (idx, keys'))
        × (idx ≤ free)
        × (valid_key idx keys ≡ false)
        × HasKeys keys'
        × ((k : ℕ) → valid_key k keys' ≡ (valid_key k keys || (k == idx)))
        × ((k : ℕ) → get keys'.destructors k ≡ (if k == idx then d else get keys.destructors k))
  unfolding key_create
  key_create-HasKeys d free l v =
      let idx : ℕ = Word.find false keys.bitmap in
      let (below, clear) = least_free keys.bitmap free (h.0) l (ground (arith, v, l)) in
      let inside : ltb idx fibre_keys_max ≡ true = key_below idx free below l in
      let keys' : Keys = record {
        bitmap = Word.set idx keys.bitmap;
        destructors = put (grow idx keys.destructors) idx d;
      } in
      let valid : (k : ℕ) → valid_key k keys' ≡ (valid_key k keys || (k == idx)) = λ k.
        valid_with keys.bitmap idx k keys.destructors keys'.destructors (h.0)
          (omega (arith, below, l)) in
      (
        idx,
        keys',
        rw inside refl,
        below,
        rw (inside, clear) refl,
        (
          Word.set-lt keys.bitmap idx (h.0) (omega (arith, below, l)),
          λ k.
              still_room keys keys' idx d k h (valid k)
                (length-put (grow idx keys.destructors) idx d),
        ),
        valid,
        λ k.
            get-put (grow idx keys.destructors) idx k d ((grow_reaches idx keys.destructors k).0)
            ∙ ap (λ (x : ℕ). if k == idx then d else x) ((grow_reaches idx keys.destructors k).1),
      )

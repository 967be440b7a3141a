-- ===== src/Bitmap/Hierarchy/Finding.antt =====
-- `find` of a hierarchical bitmap.
use mathlib.Core.Path.{subst}
use native.Mathlib.Nat.{
  pow-zero, pow-suc, one-le-pow, div-div-eq-div-mul, mod-lt, mod-add-div', div-one, div-eq_of_lt,
  mod-eq_of_lt, add-mul-div_right, add-mul-mod_self_right, div-mul-le_self, div-lt_iff_lt-mul,
}
use libfibre.Base.{
  ℕ, zero, suc, ◌+◌, ◌-◌, ◌*◌, ◌/◌, ◌%◌, ◌^◌, ◌≤◌, ◌<◌, ◌≡◌, refl, sym, ap, ◌∙◌, arith,
}
use libfibre.Base.{Bool, true, false, ◌==◌, if◌then◌else◌, Bool-cases, inl, inr}
use libfibre.Platform.{bitsize, limit}
use libfibre.Platform.Scan.{first, first-has, first-min, first-le}
use libfibre.Platform.Multiscan.{Words, wanted}
use libfibre.Bitmap.{Bitmap, is_empty}
use libfibre.Bitmap
use libfibre.Bitmap.Searches.{find-first, empty_full}
use libfibre.Bitmap.Hierarchy.{Hierarchy, width, find_from, find, test}
use libfibre.Bitmap.Hierarchy.Updates.{bit_at, is_empty-member}
use libfibre.Bitmap.Hierarchy.Setting.{IsTree}

-- The least member of a bitmap that is not empty.
module _ (n' : ℕ) (bits : Bitmap) (good : Words bits) where
  abbrev least : ℕ
  least = Bitmap.find (suc n') true bits

  least_member :
      is_empty (suc n') bits ≡ false
      → (least < width (suc n'))
        × (Bitmap.test least bits ≡ true)
        × ((r : ℕ) → Bitmap.test r bits ≡ true → least ≤ r)
  unfolding wanted
  least_member e =
      let p : ℕ → Bool = λ k. Bitmap.test k bits in
      let found : least ≡ first (suc n' * bitsize) p = find-first bits good (suc n') true in
      let small : least < width (suc n') =
        ground (arith, (empty_full bits good n').0, e, found, first-le (suc n' * bitsize) p) in
      (
        small,
        ap p found ∙ first-has (suc n' * bitsize) p (omega (arith, found, small)),
        λ r m. omega (arith, found, first-min (suc n' * bitsize) p r m),
      )

module _ (n' levels : ℕ) (h : Hierarchy) (t : IsTree levels (suc n') h) where
  abbrev base : ℕ
  base = width (suc n')

  -- Every bitmap that a member lies below has its bit set.
  ancestors :
      (l x : ℕ) → l < levels → test (suc n') x h ≡ true → bit_at (suc n') h l (x / base ^ l) ≡ true
  unfolding test
  ancestors zero x b m =
      ap (bit_at (suc n') h 0) {x = x / base ^ 0} {y = x}
        (ap (λ (t : ℕ). x / t) (pow-zero base) ∙ div-one x)
      ∙ m
  ancestors (suc l) x b m =
      let up = ancestors l x (omega arith) m in
      let quotient : x / base ^ suc l ≡ x / base ^ l / base =
        ap (λ (t : ℕ). x / t) (pow-suc base l) ∙ sym (div-div-eq-div-mul x (base ^ l) base) in
      let some_bit : is_empty (suc n') (h.bitmaps l (x / base ^ l / base)) ≡ false =
        is_empty-member n' (x / base ^ l % base) (h.bitmaps l (x / base ^ l / base))
          (t.0 l (x / base ^ l / base)) (mod-lt (x / base ^ l) {m = base} (omega arith)) up in
      ap (bit_at (suc n') h (suc l)) quotient
      ∙ ground (arith, t.1 l (x / base ^ l / base), some_bit)

-- A block and a place in it.
module _ (w i r : ℕ) (l : r < w) where
  block_of : (i * w + r) / w ≡ i
  block_of =
      ap (λ (t : ℕ). t / w) {x = i * w + r} {y = r + i * w} (omega arith)
      ∙ add-mul-div_right r i {z = w} (omega arith)
      ∙ omega (arith, div-eq_of_lt l)

  place_of : (i * w + r) % w ≡ r
  place_of =
      ap (λ (t : ℕ). t % w) {x = i * w + r} {y = r + i * w} (omega arith)
      ∙ add-mul-mod_self_right r i w
      ∙ mod-eq_of_lt l

-- Numbers of different blocks.
lower_block : (d x y : ℕ) → 0 < d → y / d < x / d → y ≤ x
lower_block d x y z l =
    omega (arith, (div-lt_iff_lt-mul {k = d} {x = y} {y = x / d} z).0 l, div-mul-le_self x d)

not_above : (d b y x : ℕ) → 0 < d → b ≤ x / d → y / d ≡ b → (x / d ≡ b → y ≤ x) → y ≤ x
not_above d b y x z l e h = elim (Bool-cases (x / d == b)) [
  | inl c ↦ h (ground (arith, c))
  | inr c ↦ lower_block d x y z (ground (arith, l, e, c))
]

block_up : (w l x : ℕ) → x / w ^ suc l ≡ x / w ^ l / w
block_up w l x = ap (λ (t : ℕ). x / t) (pow-suc w l) ∙ sym (div-div-eq-div-mul x (w ^ l) w)

block_zero : (w x : ℕ) → x / w ^ 1 ≡ x / w
block_zero w x =
    block_up w 0 x ∙ ap (λ (t : ℕ). t / w) (ap (λ (t : ℕ). x / t) (pow-zero w) ∙ div-one x)

not_end : (a b : ℕ) → a < b → (a == b) ≡ false
not_end a b l = ground (arith, l)

module _ (n' levels : ℕ) (h : Hierarchy) (t : IsTree levels (suc n') h) where
  abbrev ldx : (i idx : ℕ) → ℕ
  ldx i idx = Bitmap.find (suc n') true (h.bitmaps i idx)

  base_step :
      (idx : ℕ)
      → find_from (suc n') 0 idx h
        ≡ (if ldx 0 idx == width (suc n') then limit else idx * width (suc n') + ldx 0 idx)
  unfolding find_from Bitmap.find
  base_step idx = refl

  next_step :
      (i idx : ℕ)
      → find_from (suc n') (suc i) idx h ≡ (
          if ldx (suc i) idx == width (suc n')
          then limit
          else find_from (suc n') i (idx * width (suc n') + ldx (suc i) idx) h)
  unfolding find_from Bitmap.find
  next_step i idx = refl

  -- `y` is the least member below the bitmap at an index of a level.
  abbrev Least : (i idx y : ℕ) → Type 0
  Least i idx y =
      (test (suc n') y h ≡ true)
      × (y / width (suc n') ^ suc i ≡ idx)
      × ((x : ℕ) → test (suc n') x h ≡ true → x / width (suc n') ^ suc i ≡ idx → y ≤ x)

  -- A place in a bitmap of some level, as a number of the level.
  module _ (i idx : ℕ) (small : ldx i idx < width (suc n')) where
    abbrev block : ℕ
    block = idx * width (suc n') + ldx i idx

    block_bit : Bitmap.test (ldx i idx) (h.bitmaps i idx) ≡ true → bit_at (suc n') h i block ≡ true
    block_bit m =
        ap (λ (k : ℕ). Bitmap.test (block % width (suc n')) (h.bitmaps i k))
          (block_of (width (suc n')) idx (ldx i idx) small)
        ∙ ap (λ (k : ℕ). Bitmap.test k (h.bitmaps i idx))
            (place_of (width (suc n')) idx (ldx i idx) small)
        ∙ m

    -- It is the least of those with a bit.
    block_least :
        ((r : ℕ) → Bitmap.test r (h.bitmaps i idx) ≡ true → ldx i idx ≤ r)
        → (x : ℕ) → bit_at (suc n') h i x ≡ true
        → x / width (suc n') ≡ idx
        → block ≤ x
    block_least low x b p =
        let here : Bitmap.test (x % width (suc n')) (h.bitmaps i idx) ≡ true =
          ap (λ (k : ℕ). Bitmap.test (x % width (suc n')) (h.bitmaps i k)) (sym p) ∙ b in
        omega (
          arith,
          low (x % width (suc n')) here,
          mod-add-div' x (width (suc n')),
          ap (λ (k : ℕ). k * width (suc n')) p,
        )

  find_from_zero :
      (idx : ℕ)
      → is_empty (suc n') (h.bitmaps 0 idx) ≡ false
      → Least 0 idx (find_from (suc n') 0 idx h)
  unfolding test
  find_from_zero idx e =
      let (small, member, low) = least_member n' (h.bitmaps 0 idx) (t.0 0 idx) e in
      subst (Least 0 idx)
        (sym (base_step idx ∙ rw (not_end (ldx 0 idx) (width (suc n')) small) refl))
        (
          block_bit 0 idx small member,
          block_zero (width (suc n')) (block 0 idx small)
              ∙ block_of (width (suc n')) idx (ldx 0 idx) small,
          λ x m p. block_least 0 idx small low x m (sym (block_zero (width (suc n')) x) ∙ p),
        )

  find_from_lem :
      (i idx : ℕ)
      → i < levels
      → is_empty (suc n') (h.bitmaps i idx) ≡ false
      → Least i idx (find_from (suc n') i idx h)
  find_from_lem zero idx l e = find_from_zero idx e
  find_from_lem (suc i) idx l e =
      let (small, member, low) = least_member n' (h.bitmaps (suc i) idx) (t.0 (suc i) idx) e in
      let b : ℕ = block (suc i) idx small in
      let bit = block_bit (suc i) idx small member in
      let nonempty : is_empty (suc n') (h.bitmaps i b) ≡ false = linked i b l bit in
      let (found, place, least_there) = find_from_lem i b (omega arith) nonempty in
      subst (Least (suc i) idx)
        (sym (next_step i idx ∙ rw (not_end (ldx (suc i) idx) (width (suc n')) small) refl))
        (
          found,
          block_up (width (suc n')) (suc i) (find_from (suc n') i b h)
              ∙ ap (λ (k : ℕ). k / width (suc n')) place
              ∙ block_of (width (suc n')) idx (ldx (suc i) idx) small,
          λ x m p.
              let up : x / width (suc n') ^ suc i / width (suc n') ≡ idx =
                sym (block_up (width (suc n')) (suc i) x) ∙ p in
              not_above (width (suc n') ^ suc i) b (find_from (suc n') i b h) x
                (one-le-pow (suc i) (width (suc n')) (omega arith))
                (block_least (suc i) idx small low (x / width (suc n') ^ suc i)
                  (ancestors n' levels h t (suc i) x l m) up)
                place (least_there x m),
        )
    where
      linked :
          (j k : ℕ)
          → suc j < levels
          → bit_at (suc n') h (suc j) k ≡ true
          → is_empty (suc n') (h.bitmaps j k) ≡ false
      linked j k l' b' = ground (arith, t.1 j k, l', b')

-- While some number within the bitmap's width is a member, `find` returns the least.
pub find-least :
    (levels n' x : ℕ) (h : Hierarchy)
    → IsTree (suc levels) (suc n') h
    → test (suc n') x h ≡ true
    → x < width (suc n') ^ suc levels
    → (test (suc n') (find (suc levels) (suc n') h) h ≡ true) × (find (suc levels) (suc n') h ≤ x)
unfolding find
find-least levels n' x h t m l =
    let w : ℕ = width (suc n') in
    let top : x / w ^ suc levels ≡ 0 = div-eq_of_lt l in
    let root : x / w ^ levels / w ≡ 0 = sym (block_up w levels x) ∙ top in
    let used : is_empty (suc n') (h.bitmaps levels 0) ≡ false =
      ap (λ (k : ℕ). is_empty (suc n') (h.bitmaps levels k)) (sym root)
      ∙ is_empty-member n' (x / w ^ levels % w) (h.bitmaps levels (x / w ^ levels / w))
          (t.0 levels (x / w ^ levels / w)) (mod-lt (x / w ^ levels) {m = w} (omega arith))
          (ancestors n' (suc levels) h t levels x (omega arith) m) in
    let (member, place, least_there) =
      find_from_lem n' (suc levels) h t levels 0 (omega arith) used in
    let level : suc levels - 1 ≡ levels = omega arith in rw level (member, least_there x m top)

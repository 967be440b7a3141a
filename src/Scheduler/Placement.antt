-- ===== src/Scheduler/Placement.antt =====
-- The processors of a scheduler are a ring, and placement goes round it.
use mathlib.Core.Path.{subst}
use mathlib.Core.List.{append-nil}
use libfibre.Base.{
  ℕ, zero, suc, ◌+◌, ◌^◌, ◌<◌, ◌≡◌, refl, ap, sym, ◌∙◌, ◌≢◌, true, false, some, none, ◌>>=◌, Option,
  List, [], ◌∷◌, ◌++◌, arith, ◌==◌, mem, erase, inl, inr, Bool-cases, length, length-append,
}
use libfibre.Container.Chains.{last, mem-last}
use libfibre.Container.Ring.{Links, close, set_next, set_prev}
use libfibre.Container.Ring
use libfibre.Container.Ring.Chains.{mem-ne-zero, Inner, IsRing, IsChain}
use libfibre.Container.Ring.Insertion.{insert-IsRing}
use libfibre.Container.Ring.Rotation.{remove-middle, IsRing-rotate}
use libfibre.Scheduler.{Scheduler, add_processor, remove_processor, placement}

-- The processors, from the current place on.
abbrev pub HasProcs : Scheduler → List ℕ → Type 0
HasProcs s [] = (s.place_proc ≡ 0) × (s.ring_count ≡ 0)
HasProcs s (x ∷ xs) = (s.place_proc ≡ x) × IsRing s.links x xs × (s.ring_count ≡ suc (length xs))

-- `n` placements one after the other, and where they put their freds.
pub placements : ℕ → Scheduler → Option (List ℕ × Scheduler)
placements zero s = some ([], s)
placements (suc n) s = placement s >>= λ r. placements n r.1 >>= λ t. some (r.0 ∷ t.0, t.1)

place : ℕ → Scheduler → Scheduler
place x s = record s { place_proc = x }

place_next :
    (s : Scheduler) (x : ℕ)
    → x ≢ 0
    → placement (place x s) ≡ some (s.links.next x, place (s.links.next x) s)
unfolding placement place
place_next s x nz = ground (arith, nz)

placements_along :
    (s : Scheduler) (x : ℕ) (xs : List ℕ)
    → Inner s.links x xs
    → mem 0 (x ∷ xs) ≡ false
    → placements (length xs) (place x s) ≡ some (xs, place (last x xs) s)
unfolding placements
placements_along s x [] i n = refl
placements_along s x (y ∷ ys) (e, p, i) n =
    rw (place_next s x (ground (arith, n)), e, ◌>>=◌)
      (rw (placements_along s y ys i (ground (arith, n)), ◌>>=◌) refl)

-- Inversion of a successful bind.
>>=-eq-some :
    {A B : Type 0} (m : Option A) (f : A → Option B) {b : B}
    → (m >>= f) ≡ some b
    → (a : A) × (m ≡ some a) × (f a ≡ some b)
>>=-eq-some none f h = cc
>>=-eq-some (some a) f h = (a, refl, h)

placements_snoc :
    (n : ℕ) (s t u : Scheduler) (l : List ℕ) (p : ℕ)
    → placements n s ≡ some (l, t)
    → placement t ≡ some (p, u)
    → placements (suc n) s ≡ some (l ++ p ∷ [], u)
unfolding placements
placements_snoc zero s t u l p e f = ground (arith, e, f)
placements_snoc (suc n) s t u l p e f =
    let ((q, s'), g, h) = >>=-eq-some (placement s) _ e in
    let ((l', t'), i, j) = >>=-eq-some (placements n s') _ h in
    let same : t' ≡ t = ground (arith, j) in
    let ih : placements (suc n) s' ≡ some (l' ++ p ∷ [], u) =
      placements_snoc n s' t' u l' p i (ap placement same ∙ f) in
    rw (g, ◌>>=◌)
      (ap (λ (m : Option (List ℕ × Scheduler)). m >>= λ w. some (q ∷ w.0, w.1)) ih
        ∙ ground (arith, j))

-- As many placements as there are processors put one fred on each of them, beginning with the one
-- behind the current place, and end where they began.
pub placement_goes_round :
    (s : Scheduler) (x : ℕ) (xs : List ℕ)
    → HasProcs s (x ∷ xs)
    → placements s.ring_count s ≡ some (xs ++ x ∷ [], s)
unfolding place
placement_goes_round s x xs (e, (i, f, g, n), c) =
    let here : place x s ≡ s = ground (arith, e) in
    let back : some (s.links.next (last x xs), place (s.links.next (last x xs)) s) ≡ some (x, s) =
      ground (arith, f, e) in
    ap (λ (k : ℕ). placements k s) c
    ∙ placements_snoc (length xs) s (place (last x xs) s) s xs x
        (ap (placements (length xs)) (sym here) ∙ placements_along s x xs i n.0)
        (place_next s (last x xs) (mem-ne-zero (last x xs) (x ∷ xs) n.0 (mem-last x xs)) ∙ back)

-- Adds a processor: the first one, or behind the current place.
abbrev pub with_proc : ℕ → List ℕ → List ℕ
with_proc p [] = p ∷ []
with_proc p (x ∷ xs) = x ∷ p ∷ xs

-- A processor that is not in the ring, and whose links are null, is added behind the current place, and
-- no assertion fails.
pub add_processor-HasProcs :
    (s : Scheduler) (xs : List ℕ) (p : ℕ)
    → HasProcs s xs
    → IsChain s.links p []
    → mem p xs ≡ false
    → length xs + 1 < 2 ^ 64
    → (s' : Scheduler) × (add_processor p s ≡ some s') × HasProcs s' (with_proc p xs)
unfolding add_processor Ring.close
add_processor-HasProcs s [] p (z, c) (i, a, b, n) o l = (
  record { ring_count = 1; place_proc = p; links = close p p s.links },
  ground (arith, z, c),
  (refl, (tt, ground arith, ground arith, n), refl),
)
add_processor-HasProcs s (x ∷ xs) p (e, r, c) k o l =
    let ((h, f, ring), _) =
      insert-IsRing s.links false x xs p [] r k (λ q m. ground (arith, m, o)) in
    (
      record s { ring_count = s.ring_count + 1; links = h },
      ground (arith, e, r, c, f, l),
      (e, ring, ground (arith, c)),
    )

-- The first occurrence of a member.
mem_split :
    (p : ℕ) (xs : List ℕ)
    → mem p xs ≡ true
    → (ps zs : List ℕ) × (xs ≡ ps ++ p ∷ zs) × (erase p xs ≡ ps ++ zs)
mem_split p [] m = cc
mem_split p (x ∷ xs) m = elim (Bool-cases (p == x)) [
  | inl e ↦ ([], xs, ground (arith, e), ground (arith, e))
  | inr e ↦
      let (ps, zs, a, b) = mem_split p xs (ground (arith, m, e)) in
      (x ∷ ps, zs, ap (λ (l : List ℕ). x ∷ l) a, ground (arith, e, b))
]

-- What `removeProcessor` comes to.
abbrev Removes : Scheduler → ℕ → List ℕ → Type 0
Removes s p xs =
    (s' : Scheduler) × (remove_processor p s ≡ some s') × HasProcs s' xs × IsChain s'.links p []

remove_only : (s : Scheduler) (x : ℕ) → HasProcs s (x ∷ []) → Removes s x []
unfolding remove_processor Ring.remove Ring.take_out
remove_only s x (e, (i, f, g, n), c) =
    let h : Links = set_prev x 0 (set_next x 0 (set_prev x x (set_next x x s.links))) in
    (
      record { ring_count = 0; place_proc = 0; links = h },
      ground (arith, e, f, g, n, c),
      (refl, refl),
      (tt, ground arith, ground arith, n),
    )

remove_place :
    (s : Scheduler) (x y : ℕ) (ys : List ℕ)
    → HasProcs s (x ∷ y ∷ ys)
    → suc (suc (length ys)) < 2 ^ 64
    → Removes s x (y ∷ ys)
unfolding remove_processor
remove_place s x y ys (e, r, c) l =
    let r' : IsRing s.links y (ys ++ x ∷ []) = IsRing-rotate s.links x [] y ys r in
    let (h, f, ring, chain) = remove-middle s.links y ys x [] [] r' in
    (
      record { ring_count = suc (length ys); place_proc = y; links = h },
      ground (arith, e, r, f, c, l),
      (refl, subst (IsRing h y) (append-nil ys) ring, refl),
      chain,
    )

remove_other :
    (s : Scheduler) (x p : ℕ) (ps zs : List ℕ)
    → HasProcs s (x ∷ (ps ++ p ∷ zs))
    → suc (length (ps ++ p ∷ zs)) < 2 ^ 64
    → p ≢ x
    → Removes s p (x ∷ (ps ++ zs))
unfolding remove_processor
remove_other s x p ps zs (e, r, c) l ne =
    let (h, f, ring, chain) = remove-middle s.links x ps p [] zs r in
    (
      record { ring_count = suc (length (ps ++ zs)); place_proc = x; links = h },
      ground (arith, e, r, f, c, l, length-append ps (p ∷ zs), length-append ps zs),
      (refl, ring, refl),
      chain,
    )

remove_at_place :
    (s : Scheduler) (x : ℕ) (ys : List ℕ)
    → HasProcs s (x ∷ ys)
    → suc (length ys) < 2 ^ 64
    → Removes s x ys
remove_at_place s x [] h l = remove_only s x h
remove_at_place s x (y ∷ ys) h l = remove_place s x y ys h l

-- A processor of the ring is removed, and no assertion fails: the others stay in their order, the place
-- moves on if the processor was the current place, and the processor's links are null.
pub remove_processor-HasProcs :
    (s : Scheduler) (xs : List ℕ) (p : ℕ)
    → HasProcs s xs
    → mem p xs ≡ true
    → length xs < 2 ^ 64
    → (s' : Scheduler) × (remove_processor p s ≡ some s')
      × HasProcs s' (erase p xs)
      × IsChain s'.links p []
remove_processor-HasProcs s [] p h m l = cc
remove_processor-HasProcs s (x ∷ xs) p h m l = elim (Bool-cases (p == x)) [
  | inl e ↦ let k : p ≡ x = ground (arith, e) in rw (e, k) (remove_at_place s x xs h l)
  | inr e ↦
      let (ps, zs, a, b) = mem_split p xs (ground (arith, m, e)) in
      rw (e, b)
        (remove_other s x p ps zs (subst (λ (w : List ℕ). HasProcs s (x ∷ w)) a h)
          (ground (arith, ap length a, l)) (ground (arith, e)))
]

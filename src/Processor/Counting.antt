-- ===== src/Processor/Counting.antt =====
-- The number of freds in the ready queues of a scheduler's processors.
use libfibre.Base.{
  ℕ, suc, ◌≡◌, refl, sym, ap, ◌∙◌, ◌+◌, ◌<◌, inl, inr, Bool-cases, Bool, true, false, not, ◌&&◌,
  ◌||◌, Option, none, some, List, [], ◌∷◌, ◌==◌, ltb, length, mem, Distinct, update, arith,
}
use libfibre.Processor
use libfibre.Processor.{
  ReadyQueue, dequeue, probe, try_dequeue, enqueue, Pool, set_ready, enqueue_fred, check_affinity,
  search_local, steal_from, robbed,
}
use libfibre.Processor.Stealing.{steal_from_closed, steal_from_open}
use libfibre.Processor.Listing.{
  Item, listing, file, others, first_fred, enqueue-listing, dequeue-listing,
}

abbrev pub size : ReadyQueue → ℕ
size q = length (listing q)

abbrev pub total : (ℕ → ReadyQueue) → List ℕ → ℕ
total ready [] = 0
total ready (p ∷ ps) = size (ready p) + total ready ps

total-update_out :
    (ready : ℕ → ReadyQueue) (p : ℕ) (q : ReadyQueue) (ps : List ℕ)
    → mem p ps ≡ false
    → total (update ready p q) ps ≡ total ready ps
total-update_out ready p q [] h = refl
total-update_out ready p q (x ∷ xs) h = elim (Bool-cases (x == p)) [
  | inl e ↦ absurd (ground (arith, e, h))
  | inr e ↦ rw (e, total-update_out ready p q xs (ground (arith, h))) refl
]

pub total-update :
    (ready : ℕ → ReadyQueue) (p : ℕ) (q : ReadyQueue) (ps : List ℕ)
    → mem p ps ≡ true
    → Distinct ps
    → total (update ready p q) ps + size (ready p) ≡ total ready ps + size q
total-update ready p q [] h d = cc
total-update ready p q (x ∷ xs) h d = elim (Bool-cases (x == p)) [
  | inl e ↦
      let same : x ≡ p = ground (arith, e) in
      rw (e, same, total-update_out ready p q xs (rw (← same) d.0)) (omega arith)
  | inr e ↦ rw e (omega (arith, total-update ready p q xs (ground (arith, h, e)) d.1))
]

length-file : (p f : ℕ) (l : List Item) → length (file p f l) ≡ suc (length l)
length-file p f [] = refl
length-file p f (x ∷ xs) = elim (Bool-cases (ltb p x.0)) [
  | inl e ↦ rw e refl
  | inr e ↦ rw e (omega (arith, length-file p f xs))
]

length-others : (l : List Item) (f : ℕ) → first_fred l ≡ some f → suc (length (others l)) ≡ length l
length-others [] f h = cc
length-others (x ∷ xs) f h = refl

size-dequeue : (q : ReadyQueue) (f : ℕ) → (dequeue q).0 ≡ some f → suc (size (dequeue q).1) ≡ size q
size-dequeue q f h = let d = dequeue-listing q in rw d.1 (length-others (listing q) f (sym d.0 ∙ h))

size-enqueue : (f p : ℕ) (q q' : ReadyQueue) → enqueue f p q ≡ some q' → size q' ≡ suc (size q)
size-enqueue f p q q' h = elim (enqueue-listing f p q) [
  | inl (e, _) ↦ cc
  | inr (r, e, l) ↦
      let same : r ≡ q' = cc in ap size (sym same) ∙ ap length l ∙ length-file p f (listing q)
]

probe-size : (q : ReadyQueue) → 0 < size q → probe q ≡ true
probe-size q h = (dequeue-listing q).2 ∙ loaded (listing q) h
  where
    loaded : (l : List Item) → 0 < length l → not (Processor.is_empty l) ≡ true
    loaded [] k = absurd (omega arith)
    loaded (x ∷ xs) k = refl

-- While the count is positive some processor has a fred.
abbrev pub has_loaded : (ℕ → ReadyQueue) → List ℕ → Bool
has_loaded ready [] = false
has_loaded ready (p ∷ ps) = probe (ready p) || has_loaded ready ps

pub total-loaded :
    (ready : ℕ → ReadyQueue) (ps : List ℕ) → 0 < total ready ps → has_loaded ready ps ≡ true
total-loaded ready [] h = absurd (omega arith)
total-loaded ready (p ∷ ps) h = elim (Bool-cases (ltb 0 (size (ready p)))) [
  | inl e ↦ rw (probe-size (ready p) (ground (arith, e))) refl
  | inr e ↦ let rest = total-loaded ready ps (ground (arith, e, h)) in ground (arith, rest)
]

module _ (ps : List ℕ) (d : Distinct ps) where
  pub total-search_local :
      (p f : ℕ) (s s' : Pool)
      → mem p ps ≡ true
      → search_local p s ≡ (some f, s')
      → suc (total s'.ready ps) ≡ total s.ready ps
  unfolding search_local
  total-search_local p f s s' m h =
      let r : s' ≡ set_ready p (dequeue (s.ready p)).1 s = cc in
      let e : (dequeue (s.ready p)).0 ≡ some f = cc in
      rw r (
        omega (
          arith,
          size-dequeue (s.ready p) f e,
          total-update s.ready p (dequeue (s.ready p)).1 ps m d,
        ))

  pub total-enqueue_fred :
      (p f : ℕ) (s s' : Pool)
      → mem p ps ≡ true
      → enqueue_fred p f s ≡ some s'
      → total s'.ready ps ≡ suc (total s.ready ps)
  unfolding enqueue_fred
  total-enqueue_fred p f s s' m h = elim (enqueue-listing f (s.priority f) (s.ready p)) [
    | inl (e, _) ↦ absurd (ground (arith, h, e))
    | inr (q, e, l) ↦
        let r : s' ≡ set_ready p q s = ground (arith, h, e) in
        rw r (
          omega
            (arith, size-enqueue f (s.priority f) (s.ready p) q e, total-update s.ready p q ps m d))
  ]

  total-robbed :
      (this v : ℕ) (o : Option ℕ) (f : ℕ) (q : ReadyQueue) (s s' : Pool)
      → mem v ps ≡ true
      → (dequeue (s.ready v)) ≡ (o, q)
      → robbed this o (set_ready v q s) ≡ (some f, s')
      → suc (total s'.ready ps) ≡ total s.ready ps
  unfolding check_affinity
  total-robbed this v none f q s s' m e h = cc
  total-robbed this v (some g) f q s s' m e h =
      let same : total s'.ready ps ≡ total (update s.ready v q) ps = ground (arith, h) in
      let r : (dequeue (s.ready v)).1 ≡ q = cc in
      let k : suc (size q) ≡ size (s.ready v) =
        rw (← r) (size-dequeue (s.ready v) g (ap (λ r. r.0) e)) in
      rw same (omega (arith, k, total-update s.ready v q ps m d))

  pub total-steal_from :
      (a : Bool) (this v f : ℕ) (s s' : Pool)
      → mem v ps ≡ true
      → steal_from a this v s ≡ (some f, s')
      → suc (total s'.ready ps) ≡ total s.ready ps
  total-steal_from a this v f s s' m h = elim (Bool-cases (a && probe (s.ready v))) [
    | inr p ↦
        let e : steal_from a this v s ≡ (none, s) = steal_from_closed (λ _. a) this v s p in cc
    | inl p ↦
        total-robbed this v (dequeue (s.ready v)).0 f (dequeue (s.ready v)).1 s s' m refl
          (sym (steal_from_open (λ _. a) this v s p) ∙ h)
  ]

-- ===== src/Processor/Stealing.antt =====
-- The search for a fred on the other processors of the ring.
use mathlib.Core.Path.{fun_ext}
use libfibre.Base.{
  ℕ, suc, ◌≡◌, refl, ap, inl, inr, Bool-cases, Bool, true, false, not, ◌&&◌, ◌||◌, Option, none,
  some, List, [], ◌∷◌, ◌==◌, length, update, if◌then◌else◌, arith,
}
use libfibre.Processor.{
  ReadyQueue, dequeue, probe, try_dequeue, Pool, set_ready, robbed, found, check_affinity,
  steal_from, steal_loop, search_steal,
}
use libfibre.Processor
use libfibre.Processor.Listing.{listing, first_fred, dequeue-listing}

-- The victims from `v` on, up to `this`.
abbrev pub Route : (next : ℕ → ℕ) → ℕ → List ℕ → (this : ℕ) → Type 0
Route next v [] this = v ≡ this
Route next v (x ∷ xs) this = (v ≡ x) × ((x == this) ≡ false) × Route next (next x) xs this

-- A fred is ready at the victim, and its lock is free.
abbrev pub is_open : (acquired : ℕ → Bool) → Pool → ℕ → Bool
is_open acquired s v = acquired v && probe (s.ready v)

abbrev pub has_open : (acquired : ℕ → Bool) → Pool → List ℕ → Bool
has_open acquired s [] = false
has_open acquired s (v ∷ vs) = is_open acquired s v || has_open acquired s vs

-- The first open victim loses its first fred.
abbrev pub loot : (acquired : ℕ → Bool) → (this : ℕ) → List ℕ → Pool → Option ℕ × Pool
loot acquired this [] s = (none, s)
loot acquired this (v ∷ vs) s =
    if is_open acquired s v
    then robbed this (dequeue (s.ready v)).0 (set_ready v (dequeue (s.ready v)).1 s)
    else loot acquired this vs s

abbrev pub is_none {ℓ} : {A : Type ℓ} → Option A → Bool
is_none none = true
is_none (some a) = false

set_ready_same : (v : ℕ) (s : Pool) → set_ready v (s.ready v) s ≡ s
set_ready_same v s = ap (λ r. record s { ready = r }) (fun_ext λ w. at w)
  where
    at : (w : ℕ) → update s.ready v (s.ready v) w ≡ s.ready w
    at w = elim (Bool-cases (w == v)) [ inl e ↦ ground (arith, e) | inr e ↦ rw e refl ]

first_fred-probe : (q : ReadyQueue) → probe q ≡ true → (f : ℕ) × ((dequeue q).0 ≡ some f)
first_fred-probe q h =
    from_listing (listing q) (dequeue-listing q).0 (ground (arith, h, (dequeue-listing q).2))
  where
    from_listing :
        (l : List (ℕ × ℕ))
        → (dequeue q).0 ≡ first_fred l
        → not (Processor.is_empty l) ≡ true
        → (f : ℕ) × ((dequeue q).0 ≡ some f)
    from_listing [] e k = cc
    from_listing (x ∷ xs) e k = (x.1, e)

try_dequeue_closed :
    (a : Bool) (q : ReadyQueue) → (a && probe q) ≡ false → try_dequeue a q ≡ (none, q)
unfolding try_dequeue
try_dequeue_closed true q h = rw h refl
try_dequeue_closed false q h = elim (Bool-cases (probe q)) [ inl p ↦ rw p refl | inr p ↦ rw p refl ]

try_dequeue_open : (a : Bool) (q : ReadyQueue) → (a && probe q) ≡ true → try_dequeue a q ≡ dequeue q
unfolding try_dequeue
try_dequeue_open true q h = rw h refl
try_dequeue_open false q h = cc

module _ (acquired : ℕ → Bool) (this : ℕ) where
  pub steal_from_closed :
      (v : ℕ) (s : Pool)
      → is_open acquired s v ≡ false
      → steal_from (acquired v) this v s ≡ (none, s)
  unfolding steal_from
  steal_from_closed v s h =
      rw (try_dequeue_closed (acquired v) (s.ready v) h)
        (ap (λ t. robbed this none t) (set_ready_same v s))

  pub steal_from_open :
      (v : ℕ) (s : Pool)
      → is_open acquired s v ≡ true
      → steal_from (acquired v) this v s
        ≡ robbed this (dequeue (s.ready v)).0 (set_ready v (dequeue (s.ready v)).1 s)
  unfolding steal_from
  steal_from_open v s h = rw (try_dequeue_open (acquired v) (s.ready v) h) refl

  module _ (next : ℕ → ℕ) where
    steal_loop_step :
        (n v : ℕ) (s : Pool)
        → steal_loop (suc n) acquired next this v s ≡ (
            if v == this
            then some (none, s)
            else found
                (steal_from (acquired v) this v s)
                (steal_loop n acquired next this (next v) (steal_from (acquired v) this v s).1)
                some)
    unfolding steal_loop
    steal_loop_step n v s = refl

    found_open :
        {A : Type 0} (q : ReadyQueue) (s : Pool) (rest : A) (done : Option ℕ × Pool → A)
        → probe q ≡ true
        → found (robbed this (dequeue q).0 s) rest done ≡ done (robbed this (dequeue q).0 s)
    found_open q s rest done h = let (f, e) = first_fred-probe q h in rw e refl

    pub steal_loop-loot :
        (vs : List ℕ) (v : ℕ) (s : Pool)
        → Route next v vs this
        → steal_loop (suc (length vs)) acquired next this v s ≡ some (loot acquired this vs s)
    steal_loop-loot [] v s e = rw (steal_loop_step 0 v s, e) (ground arith)
    steal_loop-loot (x ∷ xs) v s (e, d, r) = elim (Bool-cases (is_open acquired s x)) [
      | inl h ↦
          rw (steal_loop_step (suc (length xs)) v s, e, d, h, steal_from_open x s h)
            (found_open (s.ready x) _ _ some (ground (arith, h)))
      | inr h ↦
          rw (steal_loop_step (suc (length xs)) v s, e, d, h, steal_from_closed x s h)
            (steal_loop-loot xs (next x) s r)
    ]

    loot-found :
        (vs : List ℕ) (s : Pool)
        → is_none (loot acquired this vs s).0 ≡ not (has_open acquired s vs)
    loot-found [] s = refl
    loot-found (x ∷ xs) s = elim (Bool-cases (is_open acquired s x)) [
      | inl h ↦ let (f, e) = first_fred-probe (s.ready x) (ground (arith, h)) in rw (h, e) refl
      | inr h ↦ rw h (loot-found xs s)
    ]

    -- `searchSteal` goes round the ring at most once: it takes the first fred of the first processor
    -- after this one that has a fred ready and whose lock is free, and returns no fred exactly if no
    -- other processor of the ring is such a one.
    pub search_steal-loot :
        (vs : List ℕ) (s : Pool)
        → Route next (next this) vs this
        → (search_steal (suc (length vs)) acquired next this s ≡ some (loot acquired this vs s))
          × (is_none (loot acquired this vs s).0 ≡ not (has_open acquired s vs))
    unfolding search_steal
    search_steal-loot vs s r = (steal_loop-loot vs (next this) s r, loot-found vs s)

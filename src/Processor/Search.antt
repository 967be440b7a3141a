-- ===== src/Processor/Search.antt =====
-- A processor that holds a permit finds a fred.
use libfibre.Base.{
  ℕ, suc, ◌<◌, ◌≡◌, refl, sym, ◌∙◌, ap, inl, inr, Option-cases, Bool, true, false, not, ◌||◌,
  Option, none, some, List, [], ◌∷◌, ◌==◌, length, mem, Distinct, arith,
}
use libfibre.Processor
use libfibre.Processor.{
  ReadyQueue, dequeue, probe, Pool, search_local, search_steal, search_all, set_ready,
}
use libfibre.Processor.Listing.{listing, first_fred, dequeue-listing}
use libfibre.Processor.Counting.{has_loaded, total-loaded}
use libfibre.Processor.Stealing.{Route, has_open, loot, is_none, search_steal-loot}
use libfibre.Processor.Tokens.{System, Reach, Reach-Balanced}

==_false_of : (p v : ℕ) → (p == v) ≡ false → (v == p) ≡ false
==_false_of p v h = ground (arith, h)

elsewhere : {a b : Bool} → (a || b) ≡ true → a ≡ false → b ≡ true
elsewhere h k = ground (arith, h, k)

pair_eq : {A B : Type 0} {x : A × B} {a : A} → x.0 ≡ a → x ≡ (a, x.1)
pair_eq e = ground (arith, e)

not_here : (q : ReadyQueue) → (dequeue q).0 ≡ none → probe q ≡ false
not_here q e = (dequeue-listing q).2 ∙ empty (listing q) (sym (dequeue-listing q).0 ∙ e)
  where
    empty : (l : List (ℕ × ℕ)) → first_fred l ≡ none → not (Processor.is_empty l) ≡ false
    empty [] k = refl
    empty (x ∷ xs) k = cc

none_open : {o : Option ℕ} {b : Bool} → o ≡ none → is_none o ≡ not b → b ≡ true → ⊥
none_open e h k = ground (arith, e, h, k)

has_open-update :
    (p : ℕ) (q : ReadyQueue) (s : Pool) (vs : List ℕ)
    → mem p vs ≡ false
    → has_open (λ _. true) (set_ready p q s) vs ≡ has_loaded s.ready vs
has_open-update p q s [] h = refl
has_open-update p q s (v ∷ vs) h =
    rw (==_false_of p v (ground (arith, h)), has_open-update p q s vs (ground (arith, h))) refl

-- A search over all the locks that are free.
search_every : (next : ℕ → ℕ) → (this : ℕ) → List ℕ → Pool → Option (Option ℕ × Pool)
search_every next this vs s = search_all (suc (length vs)) (λ t. (false, t)) (λ _. true) next this s

search_every_local :
    (next : ℕ → ℕ) (this f : ℕ) (vs : List ℕ) (s : Pool)
    → (dequeue (s.ready this)).0 ≡ some f
    → (t : Pool) × (search_every next this vs s ≡ some (some f, t))
unfolding search_every search_all search_local
search_every_local next this f vs s e = (set_ready this (dequeue (s.ready this)).1 s, rw e refl)

search_every_steal :
    (next : ℕ → ℕ) (this : ℕ) (vs : List ℕ) (s : Pool)
    → (dequeue (s.ready this)).0 ≡ none
    → search_every next this vs s
      ≡ search_steal
          (suc (length vs))
          (λ _. true)
          next
          this
          (set_ready this (dequeue (s.ready this)).1 s)
unfolding search_every search_all search_local
search_every_steal next this vs s e = rw e refl

-- While a processor holds a permit and no fred is on its way to a ready queue, its next search of the
-- ring, with all the locks free, returns a fred: `scheduleBlocking` does not spin in vain.
pub search_all-finds :
    (next : ℕ → ℕ) (this : ℕ) (vs : List ℕ) (d : Distinct (this ∷ vs)) {s : System}
    → Route next (next this) vs this
    → Reach (this ∷ vs) s
    → 0 < s.claims
    → s.incoming ≡ 0
    → (f : ℕ) × (t : Pool) × (search_all
          (suc (length vs))
          (λ t. (false, t))
          (λ _. true)
          next
          this
          s.pool
        ≡ some (some f, t))
unfolding search_every
search_all-finds next this vs d {s} route r c i =
    let b = Reach-Balanced (this ∷ vs) d r in
    let loaded = total-loaded s.pool.ready (this ∷ vs) (omega (arith, b, c, i)) in
    elim (Option-cases (dequeue (s.pool.ready this)).0) [
      | inr (f, e) ↦
          let (t, found_here) = search_every_local next this f vs s.pool e in (f, t, found_here)
      | inl e ↦
          let s1 = set_ready this (dequeue (s.pool.ready this)).1 s.pool in
          let (goes, finds) = search_steal-loot (λ _. true) this next vs s1 route in
          let open_there : has_open (λ _. true) s1 vs ≡ true =
            has_open-update this _ s.pool vs d.0
            ∙ elsewhere loaded (not_here (s.pool.ready this) e) in
          elim (Option-cases (loot (λ _. true) this vs s1).0) [
            | inl n ↦ absurd (none_open n finds open_there)
            | inr (f, g) ↦ (
              f,
              (loot (λ _. true) this vs s1).1,
              search_every_steal next this vs s.pool e ∙ goes ∙ ap some (pair_eq g),
            )
          ]
    ]

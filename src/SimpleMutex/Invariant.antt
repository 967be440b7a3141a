-- ===== src/SimpleMutex/Invariant.antt =====
-- The counter and the lists of a SimpleMutex0, step by step.
use libfibre.Base.{
  ℕ, suc, ◌+◌, ◌≡◌, refl, sym, ap, ◌∙◌, Bool, true, false, some, List, [], ◌∷◌, ◌++◌, ◌==◌, update,
  erase, mem, length, length-append, length-erase, arith, Bool-cases, inl, inr,
}
use libfibre.Base.Int.{ℤ, pos_part, neg_part}
use libfibre.Benaphore
use libfibre.LimitedSemaphore
use libfibre.Base.Tracking.{Tracks, Tracks-stay, Tracks-erase, Tracks-snoc, Tracks-tail}
use libfibre.SimpleMutex
use libfibre.SimpleMutex.{
  Pc, idle, pushing, sleeping, holding, popping, acquire, try_acquire, System, init, go, Step,
  enter, enter_try, block, push, leave, owing, pop, Reach, here, later,
}

abbrev pub is_pushing : Pc → Bool
is_pushing pushing = true
is_pushing _ = false

abbrev pub is_sleeping : Pc → Bool
is_sleeping sleeping = true
is_sleeping _ = false

abbrev pub is_holding : Pc → Bool
is_holding holding = true
is_holding _ = false

abbrev pub is_popping : Pc → Bool
is_popping popping = true
is_popping _ = false

pub record Inv (s : System) : Type 0 where
  pub holding : Tracks is_holding s.pc s.holders
  pub pushing : Tracks is_pushing s.pc s.pushers
  pub sleeping : Tracks is_sleeping s.pc s.queue
  pub popping : Tracks is_popping s.pc s.poppers
  pub permit : pos_part s.counter + length s.holders + length s.poppers ≡ 1
  pub owed : neg_part s.counter + length s.poppers ≡ length s.pushers + length s.queue

-- What the operations do to the counter.
entered :
    (c n : ℤ) → acquire c ≡ (true, n) → (pos_part c ≡ suc (pos_part n)) × (neg_part n ≡ neg_part c)
unfolding acquire Benaphore.p
entered c n h = ground (arith, h)

tried :
    (x c n : ℤ)
    → try_acquire x c ≡ (true, n)
    → (pos_part c ≡ suc (pos_part n)) × (neg_part n ≡ neg_part c)
unfolding try_acquire Benaphore.may_try Benaphore.try_p
tried x c n h = ground (arith, h)

blocked :
    (c n : ℤ) → acquire c ≡ (false, n) → (pos_part n ≡ pos_part c) × (neg_part n ≡ suc (neg_part c))
unfolding acquire Benaphore.p
blocked c n h = ground (arith, h)

left :
    (c n : ℤ)
    → SimpleMutex.release c ≡ (true, n)
    → (pos_part n ≡ suc (pos_part c)) × (neg_part n ≡ neg_part c)
unfolding SimpleMutex.release Benaphore.v
left c n h = ground (arith, h)

owes :
    (c n : ℤ)
    → SimpleMutex.release c ≡ (false, n)
    → (pos_part n ≡ pos_part c) × (neg_part c ≡ suc (neg_part n))
unfolding SimpleMutex.release Benaphore.v
owes c n h = ground (arith, h)

popped :
    (queue rest : List ℕ) (f : ℕ) → LimitedSemaphore.pop queue ≡ (some f, rest) → queue ≡ f ∷ rest
unfolding LimitedSemaphore.pop
popped [] rest f h = cc
popped (x ∷ xs) rest f h = cc

heads : (f : ℕ) (rest : List ℕ) → mem f (f ∷ rest) ≡ true
heads f rest = ground arith

module _ {s : System} (v : Inv s) (i : ℕ) where
  enter-Inv :
      (n : ℤ)
      → s.pc i ≡ idle
      → pos_part s.counter ≡ suc (pos_part n)
      → neg_part n ≡ neg_part s.counter
      → Inv (go i holding (record s { counter = n; holders = s.holders ++ i ∷ [] }))
  enter-Inv n e a b = record {
    holding = Tracks-snoc is_holding s.pc i holding v.holding (ap is_holding e) refl;
    pushing = Tracks-stay is_pushing s.pc i holding v.pushing (ap is_pushing e);
    sleeping = Tracks-stay is_sleeping s.pc i holding v.sleeping (ap is_sleeping e);
    popping = Tracks-stay is_popping s.pc i holding v.popping (ap is_popping e);
    permit = omega (arith, v.permit, a, length-append s.holders (i ∷ []));
    owed = omega (arith, v.owed, b);
  }

  block-Inv :
      (n : ℤ)
      → s.pc i ≡ idle
      → acquire s.counter ≡ (false, n)
      → Inv (go i pushing (record s { counter = n; pushers = s.pushers ++ i ∷ [] }))
  block-Inv n e h = record {
    holding = Tracks-stay is_holding s.pc i pushing v.holding (ap is_holding e);
    pushing = Tracks-snoc is_pushing s.pc i pushing v.pushing (ap is_pushing e) refl;
    sleeping = Tracks-stay is_sleeping s.pc i pushing v.sleeping (ap is_sleeping e);
    popping = Tracks-stay is_popping s.pc i pushing v.popping (ap is_popping e);
    permit = omega (arith, v.permit, (blocked s.counter n h).0);
    owed = omega (arith, v.owed, (blocked s.counter n h).1, length-append s.pushers (i ∷ []));
  }

  push-Inv :
      s.pc i ≡ pushing
      → Inv (
          go i sleeping
            (record s { queue = LimitedSemaphore.p i s.queue; pushers = erase i s.pushers }))
  unfolding LimitedSemaphore.p
  push-Inv e = record {
    holding = Tracks-stay is_holding s.pc i sleeping v.holding (ap is_holding e);
    pushing = Tracks-erase is_pushing s.pc i sleeping v.pushing refl;
    sleeping = Tracks-snoc is_sleeping s.pc i sleeping v.sleeping (ap is_sleeping e) refl;
    popping = Tracks-stay is_popping s.pc i sleeping v.popping (ap is_popping e);
    permit = v.permit;
    owed = omega (
      arith,
      v.owed,
      length-append s.queue (i ∷ []),
      length-erase i s.pushers (v.pushing.same i ∙ ap is_pushing e),
    );
  }

  leave-Inv :
      (n : ℤ)
      → s.pc i ≡ holding
      → SimpleMutex.release s.counter ≡ (true, n)
      → Inv (go i idle (record s { counter = n; holders = erase i s.holders }))
  leave-Inv n e h = record {
    holding = Tracks-erase is_holding s.pc i idle v.holding refl;
    pushing = Tracks-stay is_pushing s.pc i idle v.pushing (ap is_pushing e);
    sleeping = Tracks-stay is_sleeping s.pc i idle v.sleeping (ap is_sleeping e);
    popping = Tracks-stay is_popping s.pc i idle v.popping (ap is_popping e);
    permit = omega (
      arith,
      v.permit,
      (left s.counter n h).0,
      length-erase i s.holders (v.holding.same i ∙ ap is_holding e),
    );
    owed = omega (arith, v.owed, (left s.counter n h).1);
  }

  owing-Inv :
      (n : ℤ)
      → s.pc i ≡ holding
      → SimpleMutex.release s.counter ≡ (false, n)
      → Inv (
          go i popping
            (record s { counter = n; holders = erase i s.holders; poppers = s.poppers ++ i ∷ [] }))
  owing-Inv n e h = record {
    holding = Tracks-erase is_holding s.pc i popping v.holding refl;
    pushing = Tracks-stay is_pushing s.pc i popping v.pushing (ap is_pushing e);
    sleeping = Tracks-stay is_sleeping s.pc i popping v.sleeping (ap is_sleeping e);
    popping = Tracks-snoc is_popping s.pc i popping v.popping (ap is_popping e) refl;
    permit = omega (
      arith,
      v.permit,
      (owes s.counter n h).0,
      length-append s.poppers (i ∷ []),
      length-erase i s.holders (v.holding.same i ∙ ap is_holding e),
    );
    owed = omega (arith, v.owed, (owes s.counter n h).1, length-append s.poppers (i ∷ []));
  }

  -- The fred that is popped sleeps, and is not the one that pops it.
  front_sleeps :
      (f : ℕ) (rest : List ℕ)
      → s.pc i ≡ popping
      → LimitedSemaphore.pop s.queue ≡ (some f, rest)
      → (s.pc f ≡ sleeping) × ((i == f) ≡ false)
  front_sleeps f rest e h =
      let q = popped s.queue rest f h in
      let there : mem f s.queue ≡ true = rw q (heads f rest) in
      let asleep = sleeping_at (s.pc f) (sym there ∙ v.sleeping.same f) in
      (asleep, elim (Bool-cases (i == f)) [ inl k ↦ absurd (clash k asleep) | inr k ↦ k ])
    where
      sleeping_at : (x : Pc) → true ≡ is_sleeping x → x ≡ sleeping
      sleeping_at x k = ground (arith, k)

      clash : (i == f) ≡ true → s.pc f ≡ sleeping → ⊥
      clash k a =
          let same : i ≡ f = ground (arith, k) in
          let both : popping ≡ sleeping = sym e ∙ ap (λ j. s.pc j) same ∙ a in cc

  pop-Inv :
      (f : ℕ) (rest : List ℕ)
      → s.pc i ≡ popping
      → LimitedSemaphore.pop s.queue ≡ (some f, rest)
      → Inv (
          go i idle (
            go f holding (record s {
              queue = rest;
              holders = s.holders ++ f ∷ [];
              poppers = erase i s.poppers;
            })))
  pop-Inv f rest e h =
      let q = popped s.queue rest f h in
      let first : Tracks is_sleeping s.pc (f ∷ rest) = rw (← q) v.sleeping in
      let (asleep, apart) = front_sleeps f rest e h in
      let before : update s.pc f holding i ≡ popping = rw apart e in
      record {
        holding =
            Tracks-stay is_holding (update s.pc f holding) i idle
              (Tracks-snoc is_holding s.pc f holding v.holding (ap is_holding asleep) refl)
              (ap is_holding before);
        pushing =
            Tracks-stay is_pushing (update s.pc f holding) i idle
              (Tracks-stay is_pushing s.pc f holding v.pushing (ap is_pushing asleep))
              (ap is_pushing before);
        sleeping =
            Tracks-stay is_sleeping (update s.pc f holding) i idle
              (Tracks-tail is_sleeping s.pc f holding first refl) (ap is_sleeping before);
        popping =
            Tracks-erase is_popping (update s.pc f holding) i idle
              (Tracks-stay is_popping s.pc f holding v.popping (ap is_popping asleep)) refl;
        permit = omega (
          arith,
          v.permit,
          length-append s.holders (f ∷ []),
          length-erase i s.poppers (v.popping.same i ∙ ap is_popping e),
        );
        owed = omega (
          arith,
          v.owed,
          ap length q,
          length-erase i s.poppers (v.popping.same i ∙ ap is_popping e),
        );
      }

Step-Inv : {s t : System} → Step s t → Inv s → Inv t
Step-Inv {s} (enter i n e h) v =
    enter-Inv v i n e (entered s.counter n h).0 (entered s.counter n h).1
Step-Inv {s} (enter_try i x n e h) v =
    enter-Inv v i n e (tried x s.counter n h).0 (tried x s.counter n h).1
Step-Inv (block i n e h) v = block-Inv v i n e h
Step-Inv (push i e) v = push-Inv v i e
Step-Inv (leave i n e h) v = leave-Inv v i n e h
Step-Inv (owing i n e h) v = owing-Inv v i n e h
Step-Inv (pop i f rest e h) v = pop-Inv v i f rest e h

pub Reach-Inv : {s : System} → Reach s → Inv s
Reach-Inv here = record {
  holding = record { once = tt; same = λ f. refl };
  pushing = record { once = tt; same = λ f. refl };
  sleeping = record { once = tt; same = λ f. refl };
  popping = record { once = tt; same = λ f. refl };
  permit = refl;
  owed = refl;
}
Reach-Inv (later r step) = Step-Inv step (Reach-Inv r)

-- ===== src/FastBarrier/Rounds.antt =====
-- Freds that come to a FastBarrier, and notifiers that let groups of them go.
use native.Mathlib.Nat.{mod-eq_of_lt, mod-add-mod, add-mod_right, add-mod_left}
use libfibre.Base.{
  ℕ, suc, ◌+◌, ◌-◌, ◌%◌, ◌^◌, ◌≤◌, ◌<◌, ◌≡◌, refl, sym, ap, ◌∙◌, Bool, true, false, not, List, [],
  ◌∷◌, ◌==◌, length, length-append, arith, Bool-cases, ◌⊎◌, inl, inr, ltb,
}
use libfibre.Freds.{Freds}
use libfibre.FastBarrier.{Barrier, enter, count, discount}

-- The counts only observe. `between`: the freds that have pushed themselves and have yet to count. `due`:
-- the targets that notifiers have yet to subtract. `owed`: the freds that notifiers have yet to pop.
pub record System : Type 0 where
  pub barrier : Barrier
  pub between : ℕ
  pub due : ℕ
  pub owed : ℕ

abbrev pub init : ℕ → System
init target = record {
  barrier = record { target = target; counter = 0; queue = [] };
  between = 0;
  due = 0;
  owed = 0;
}

-- Fewer than 2^64 freds wait at a time.
pub data Step (s : System) : System → Type 0 where
  push :
      (f : ℕ) (w : Freds)
      → length s.barrier.queue + 1 < 2 ^ 64
      → Step s (record s { barrier = (enter f s.barrier w).0; between = suc s.between })
  arrive :
      (k : ℕ) (b : Barrier)
      → s.between ≡ suc k
      → count s.barrier ≡ (true, b)
      → Step s (record s { barrier = b; between = k })
  complete :
      (k : ℕ) (b : Barrier)
      → s.between ≡ suc k
      → count s.barrier ≡ (false, b)
      → Step s (record s { barrier = b; between = k; due = s.due + s.barrier.target })
  subtract :
      (d : ℕ)
      → s.due ≡ s.barrier.target + d
      → Step s
          (record s { barrier = discount s.barrier; due = d; owed = s.owed + s.barrier.target })
  pop :
      (k f : ℕ) (rest : List ℕ)
      → s.owed ≡ suc k
      → s.barrier.queue ≡ f ∷ rest
      → Step s (record s { barrier = record (s.barrier) { queue = rest }; owed = k })

pub data Reach (target : ℕ) : System → Type 0 where
  here : Reach target (init target)
  later : {s t : System} → Reach target s → Step s t → Reach target t

record Inv (target : ℕ) (s : System) : Type 0 where
  pub goal : s.barrier.target ≡ target
  pub waiting : length s.barrier.queue ≡ s.between + s.barrier.counter + s.owed
  pub few : length s.barrier.queue < 2 ^ 64
  pub whole : s.due % target ≡ 0
  pub below : s.due ≤ s.barrier.counter
  pub above : s.barrier.counter < s.due + target

-- The rest of a number that is a little more than a multiple.
rest_of : (due x target : ℕ) → due % target ≡ 0 → x < target → (due + x) % target ≡ x
rest_of due x target h lt =
    sym (mod-add-mod due target x) ∙ rw h (ap (λ n. n % target) (omega arith) ∙ mod-eq_of_lt lt)

-- What an addition tells, with one fred more than `due`, a multiple, and fewer than a target beyond.
counted :
    (counter due target : ℕ) (b : Bool) (n : ℕ)
    → n ≡ counter + 1
    → due % target ≡ 0
    → due ≤ counter
    → counter < due + target
    → (not (n % target == 0)) ≡ b
    → (b ≡ true) × (n < due + target) ⊎ (b ≡ false) × (n ≡ due + target)
counted counter due target b n e whole lo hi h = elim (Bool-cases (ltb n (due + target))) [
  | inl k ↦
      let small : n < due + target = ground (arith, k) in
      let r = rest_of due (n - due) target whole (omega (arith, e, lo, small)) in
      let same : n % target ≡ n - due = ap (λ m. m % target) (omega (arith, e, lo)) ∙ r in
      inl (ground (arith, h, same, e, lo), small)
  | inr k ↦
      let full : n ≡ due + target = ground (arith, k, e, hi) in
      let zero_rest : n % target ≡ 0 =
        ap (λ m. m % target) full ∙ add-mod_right due target ∙ whole in
      inr (ground (arith, h, zero_rest), full)
]

abbrev counted_to : ℕ → Barrier → Bool × Barrier
counted_to n b = (not (n % b.target == 0), record b { counter = n })

count_fact :
    (b b' : Barrier) (p : Bool)
    → b.counter + 1 < 2 ^ 64
    → count b ≡ (p, b')
    → (b' ≡ record b { counter = b.counter + 1 }) × (not ((b.counter + 1) % b.target == 0) ≡ p)
unfolding count
count_fact b b' p lt h =
    let n : (b.counter + 1) % 2 ^ 64 ≡ b.counter + 1 = mod-eq_of_lt lt in
    let h' : counted_to (b.counter + 1) b ≡ (p, b') = ap (λ m. counted_to m b) (sym n) ∙ h in
    (sym (ap (λ r. r.1) h'), ap (λ r. r.0) h')

discount_fact :
    (b : Barrier)
    → b.counter < 2 ^ 64
    → b.target ≤ b.counter
    → discount b ≡ record b { counter = b.counter - b.target }
unfolding discount
discount_fact b lt le =
    let e : b.counter + 2 ^ 64 - b.target ≡ b.counter - b.target + 2 ^ 64 = omega (arith, lt, le) in
    ap (λ n. record b { counter = n })
      (ap (λ n. n % 2 ^ 64) e
        ∙ add-mod_right (b.counter - b.target) (2 ^ 64)
        ∙ mod-eq_of_lt (omega (arith, lt, le)))

module _ (target : ℕ) (pos : 0 < target) where
  Step-Inv : {s t : System} → Step s t → Inv target s → Inv target t
  unfolding enter
  Step-Inv {s} (push f w lt) v = record {
    goal = v.goal;
    waiting = omega (arith, v.waiting, length-append s.barrier.queue (f ∷ []));
    few = omega (arith, lt, length-append s.barrier.queue (f ∷ []));
    whole = v.whole;
    below = v.below;
    above = v.above;
  }
  Step-Inv {s} (arrive k b e h) v =
      let (same, tells) = count_fact s.barrier b true (omega (arith, v.waiting, v.few, e)) h in
      let cases =
        counted s.barrier.counter s.due target true (s.barrier.counter + 1) refl v.whole v.below
          v.above (rw (← v.goal) tells) in
      rw same (elim cases [
        | inl (_, small) ↦ record {
          goal = v.goal;
          waiting = omega (arith, v.waiting, e);
          few = v.few;
          whole = v.whole;
          below = omega (arith, v.below);
          above = small;
        }
        | inr (e, _) ↦ absurd (cc)
      ])
  Step-Inv {s} (complete k b e h) v =
      let (same, tells) = count_fact s.barrier b false (omega (arith, v.waiting, v.few, e)) h in
      let cases =
        counted s.barrier.counter s.due target false (s.barrier.counter + 1) refl v.whole v.below
          v.above (rw (← v.goal) tells) in
      rw (same, v.goal)
        (elim cases [
          | inl (e, _) ↦ absurd (cc)
          | inr (_, full) ↦ record {
            goal = refl;
            waiting = omega (arith, v.waiting, e);
            few = v.few;
            whole = add-mod_right s.due target ∙ v.whole;
            below = omega (arith, full);
            above = omega (arith, full, pos);
          }
        ])
  Step-Inv {s} (subtract d e) v =
      let e' : s.due ≡ target + d = e ∙ ap (λ n. n + d) v.goal in
      let lt : s.barrier.counter < 2 ^ 64 = omega (arith, v.waiting, v.few) in
      let le : s.barrier.target ≤ s.barrier.counter = omega (arith, v.below, e', v.goal) in
      rw (discount_fact s.barrier lt le) record {
        goal = v.goal;
        waiting = omega (arith, v.waiting, le);
        few = v.few;
        whole = sym (add-mod_left target d) ∙ ap (λ n. n % target) (sym e') ∙ v.whole;
        below = omega (arith, v.below, e', v.goal);
        above = omega (arith, v.above, e', v.goal, le);
      }
  Step-Inv {s} (pop k f rest e q) v =
      let n = ap length q in
      record {
        goal = v.goal;
        waiting = omega (arith, v.waiting, e, n);
        few = omega (arith, v.few, n);
        whole = v.whole;
        below = v.below;
        above = v.above;
      }

  Reach-Inv : {s : System} → Reach target s → Inv target s
  Reach-Inv here = record {
    goal = refl;
    waiting = refl;
    few = omega arith;
    whole = mod-eq_of_lt pos;
    below = omega arith;
    above = omega (arith, pos);
  }
  Reach-Inv (later r step) = Step-Inv step (Reach-Inv r)

  -- In every reachable state the queue holds as many freds as have yet to count, are counted, or are to
  -- be popped by a notifier, so that a notifier always finds the freds that it waits for, and the counter
  -- exceeds the targets that notifiers have yet to subtract by less than one target: no full group is
  -- left waiting.
  pub Reach-rounds :
      {s : System}
      → Reach target s
      → (length s.barrier.queue ≡ s.between + s.barrier.counter + s.owed)
        × (s.due ≤ s.barrier.counter)
        × (s.barrier.counter < s.due + target)
  Reach-rounds r = let v = Reach-Inv r in (v.waiting, v.below, v.above)

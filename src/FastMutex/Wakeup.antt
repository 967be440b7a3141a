-- ===== src/FastMutex/Wakeup.antt =====
-- Mutual exclusion of a FastMutex, and that no fred sleeps for ever.
use libfibre.Base.{
  ℕ, ◌≤◌, ◌≡◌, ◌⊎◌, refl, sym, ap, ◌∙◌, Bool, true, false, not, ◌&&◌, some, List, [], ◌∷◌, ◌==◌,
  update, mem, length, arith, Bool-cases, inl, inr,
}
use libfibre.Base.Int.{ℤ, pos, negsuc, pos_part, neg_part}
use libfibre.LimitedSemaphore
use libfibre.Base.Tracking.{Tracks}
use libfibre.FastMutex.{try_lock}
use libfibre.FastMutex.Invariant.{
  Inv, is_pushing, is_sleeping, is_popping, is_holding, is_idle, taken, refused, non_null,
}
use libfibre.FastMutex.Steps.{
  p-none, round_stored, expected, entered, apart, heads, front_sleeps, Reach-Inv,
}
use libfibre.FastMutex.System.{
  Pc, spinning, paying, pushing, sleeping, retrying, holding, popping, posting, System, Step, enter,
  enter_try, spin, give_up, pay, block, push, retry, release, again, stored, owing, pop, Reach,
  here, later,
}

-- In every reachable state two freds that are inside are the same, and it is the owner.
pub fast_mutex_exclusion :
    {s : System} (f g : ℕ) → Reach s → s.pc f ≡ holding → s.pc g ≡ holding → (f ≡ g) × (s.owner ≡ f)
fast_mutex_exclusion {s} f g r h k =
    let v = Reach-Inv r in
    let a = sym (v.owned f) ∙ ap is_holding h in
    let b = sym (v.owned g) ∙ ap is_holding k in (same_owner s.owner f g a b, owner_is s.owner f a)
  where
    same_owner :
        (o f g : ℕ) → (not (f == 0) && (o == f)) ≡ true → (not (g == 0) && (o == g)) ≡ true → f ≡ g
    same_owner o f g a b = ground (arith, a, b)

    owner_is : (o f : ℕ) → (not (f == 0) && (o == f)) ≡ true → o ≡ f
    owner_is o f a = ground (arith, a)

-- A fred that is about to try, or on the way to leave a permit or to wake a fred.
abbrev pub is_moving : Pc → Bool
is_moving retrying = true
is_moving popping = true
is_moving (posting c) = true
is_moving _ = false

abbrev Live : System → Type 0
Live s =
    ((s.owner == 0) ≡ false) ⊎ ((pos_part s.counter ≡ 1) ⊎ ((f : ℕ) × (is_moving (s.pc f) ≡ true)))

moved :
    (place : ℕ → Pc) (i : ℕ) (c : Pc) → is_moving c ≡ true → is_moving (update place i c i) ≡ true
moved place i c h = elim (Bool-cases (i == i)) [
  | inl e ↦ rw e h
  | inr e ↦ absurd (ground (arith, e))
]

-- Fred i goes to the place c, with the owner o and the counter n.
abbrev After : System → ℕ → Pc → ℕ → ℤ → Type 0
After s i c o n =
    ((o == 0) ≡ false) ⊎ ((pos_part n ≡ 1) ⊎ ((f : ℕ) × (is_moving (update s.pc i c f) ≡ true)))

module _ (s : System) (i : ℕ) (c : Pc) where
  still :
      is_moving (s.pc i) ≡ false
      → (f : ℕ) × (is_moving (s.pc f) ≡ true)
      → (f : ℕ) × (is_moving (update s.pc i c f) ≡ true)
  still h (f, m) = (
    f,
    elim (Bool-cases (f == i)) [
      | inl e ↦
          let same : f ≡ i = ground (arith, e) in
          absurd (clash (ap (λ j. is_moving (s.pc j)) (sym same) ∙ m))
      | inr e ↦ rw e m
    ],
  )
    where
      clash : is_moving (s.pc i) ≡ true → ⊥
      clash k = ground (arith, h, k)

  -- A fred that is not moving leaves the owner alone, and does not take a permit.
  waits :
      (n : ℤ)
      → Live s
      → is_moving (s.pc i) ≡ false
      → (pos_part s.counter ≡ 1 → pos_part n ≡ 1)
      → After s i c s.owner n
  waits n (inl e) h kept = inl e
  waits n (inr (inl e)) h kept = inr (inl (kept e))
  waits n (inr (inr m)) h kept = inr (inr (still h m))

  moves : (o : ℕ) (n : ℤ) → is_moving c ≡ true → After s i c o n
  moves o n h = inr (inr (i, moved s.pc i c h))

-- After `tryLock` the mutex is held, by this fred or by another.
tried : (i o owner : ℕ) (b : Bool) → (0 == i) ≡ false → try_lock i owner ≡ (b, o) → (o == 0) ≡ false
tried i o owner true z t = rw (taken i o owner t).1 (ground (arith, z))
tried i o owner false z t = rw (refused i o owner t).1 (refused i o owner t).0

flipped : (i f : ℕ) → (i == f) ≡ false → (f == i) ≡ false
flipped i f h = ground (arith, h)

Step-Live : {s t : System} → Step s t → Inv s → Live s → Live t
Step-Live {s} (enter i o e nz h) v l = waits s i spinning s.counter l (ap is_moving e) (λ k. k)
Step-Live {s} (enter_try i o b e nz h) v l =
    inl (tried i o s.owner b (apart i nz) (entered i o s.owner b h))
Step-Live {s} (spin i o b e h) v l = inl (tried i o s.owner b (non_null i v (ap is_idle e)) h)
Step-Live {s} (give_up i e) v l = waits s i paying s.counter l (ap is_moving e) (λ k. k)
Step-Live {s} (pay i r c e h) v l = moves s i retrying s.owner c refl
Step-Live {s} (block i c e h) v l =
    waits s i pushing c l (ap is_moving e)
      (λ k. absurd (omega (arith, k, (p-none s.counter c h).0)))
Step-Live {s} (push i e) v l = waits s i sleeping s.counter l (ap is_moving e) (λ k. k)
Step-Live {s} (retry i o b e h) v l = inl (tried i o s.owner b (non_null i v (ap is_idle e)) h)
Step-Live {s} (release i o e h) v l = moves s i (posting (pos 0)) o s.counter refl
Step-Live {s} (again i c c' n e h) v l = moves s i (posting c') s.owner n refl
Step-Live {s} (stored i c n e h) v l = inr (inl (round_stored c s.counter n (expected v i c e) h).1)
Step-Live {s} (owing i c n e h) v l = moves s i popping s.owner n refl
Step-Live {s} (pop i f rest e h) v l =
    let (_, other) = front_sleeps v i f rest e h in
    inr (inr (f, rw (flipped i f other) (moved s.pc f retrying refl)))

Reach-Live : {s : System} → Reach s → Live s
Reach-Live here = inr (inl refl)
Reach-Live (later r step) = Step-Live step (Reach-Inv r) (Reach-Live r)

-- A list of freds at a place where no fred is.
none_at :
    (test : Pc → Bool) (place : ℕ → Pc) (l : List ℕ)
    → Tracks test place l
    → ((f : ℕ) → test (place f) ≡ false)
    → length l ≡ 0
none_at test place [] t h = refl
none_at test place (x ∷ xs) t h = absurd (at (mem x (x ∷ xs)) (heads x xs) (t.same x ∙ h x))
  where
    at : (b : Bool) → b ≡ true → b ≡ false → ⊥
    at b p q = cc

nobody :
    (test : Pc → Bool) (place : ℕ → Pc) (l : List ℕ)
    → Tracks test place l
    → length l ≡ 0
    → (f : ℕ) → test (place f) ≡ false
nobody test place [] t h f = sym (t.same f)
nobody test place (x ∷ xs) t h f = absurd (omega arith)

not_popping : (c : Pc) → is_moving c ≡ false → is_popping c ≡ false
not_popping c h = ground (arith, h)

-- While a FastMutex is free, and no fred is about to try, to leave a permit or to wake another, the
-- permit is there, and no fred sleeps or is about to.
pub fast_mutex_wakeup :
    {s : System} (f : ℕ)
    → Reach s
    → s.owner ≡ 0
    → ((g : ℕ) → is_moving (s.pc g) ≡ false)
    → (s.counter ≡ pos 1) × (is_sleeping (s.pc f) ≡ false) × (is_pushing (s.pc f) ≡ false)
fast_mutex_wakeup {s} f r o m =
    let v = Reach-Inv r in
    let open_one : s.counter ≡ pos 1 = permit s.counter (Reach-Live r) in
    let quiet = none_at is_popping s.pc s.poppers v.popping (λ g. not_popping (s.pc g) (m g)) in
    let owed : neg_part s.counter ≡ 0 = rw open_one refl in
    (
      open_one,
      nobody is_sleeping s.pc s.queue v.sleeping (omega (arith, v.balance, quiet, owed)) f,
      nobody is_pushing s.pc s.pushers v.pushing (omega (arith, v.balance, quiet, owed)) f,
    )
  where
    one : (c : ℤ) → pos_part c ≡ 1 → c ≡ pos 1
    one (pos n) h = ap pos h
    one (negsuc n) h = absurd (omega arith)

    permit :
        (c : ℤ)
        → ((s.owner == 0) ≡ false) ⊎ ((pos_part c ≡ 1) ⊎ ((g : ℕ) × (is_moving (s.pc g) ≡ true)))
        → c ≡ pos 1
    permit c (inl k) = absurd (ground (arith, k, o))
    permit c (inr (inl k)) = one c k
    permit c (inr (inr (g, k))) = absurd (ground (arith, k, m g))

-- A fred in `sem.V` finds another in the queue, unless that one is between `ben.P` and its push.
pub popper_finds :
    {s : System} (i : ℕ)
    → Reach s
    → s.pc i ≡ popping
    → s.pushers ≡ []
    → (f : ℕ) × (rest : List ℕ) × (LimitedSemaphore.pop s.queue ≡ (some f, rest))
unfolding LimitedSemaphore.pop
popper_finds {s} i r e h =
    let v = Reach-Inv r in
    let there : mem i s.poppers ≡ true = v.popping.same i ∙ ap is_popping e in
    first s.queue (omega (arith, v.balance, ap length h, some_length i s.poppers there))
  where
    some_length : (i : ℕ) (l : List ℕ) → mem i l ≡ true → 1 ≤ length l
    some_length i [] k = cc
    some_length i (x ∷ xs) k = omega arith

    first :
        (q : List ℕ)
        → 1 ≤ length q
        → (f : ℕ) × (rest : List ℕ) × (LimitedSemaphore.pop q ≡ (some f, rest))
    first [] k = absurd (omega arith)
    first (f ∷ rest) k = (f, rest, refl)

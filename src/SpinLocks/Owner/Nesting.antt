-- ===== src/SpinLocks/Owner/Nesting.antt =====
-- The owner lock is held by one thread, and its counter is the depth of that thread's acquisitions.
use libfibre.Base.{
  ℕ, ◌+◌, ◌-◌, ◌%◌, ◌^◌, ◌≤◌, ◌<◌, ◌≡◌, refl, Bool, true, false, none, some, arith, ◌||◌, ltb, ◌==◌,
  if◌then◌else◌,
}
use libfibre.SpinLocks.Owner.{
  OwnerLock, owned_by, claim, count, uncount, disown, Pc, outside, claiming, counting, leaving,
  System, Step, again, test, win, lose, enter, leave, free, Reach, here, later,
}

-- A thread that owns the lock: inside, on its way in, or on its way out.
abbrev inside : Pc → ℕ → Bool
inside outside n = ltb 0 n
inside claiming n = ltb 0 n
inside counting n = true
inside leaving n = true

abbrev claims : Pc → Bool
claims claiming = true
claims _ = false

pub record Inv (s : System) : Type 0 where
  pub owner : (i : ℕ) → owned_by s.lock.owner i ≡ inside (s.pc i) (s.depth i)
  pub counter : (i : ℕ) → s.lock.owner ≡ some i → s.lock.counter ≡ s.depth i
  pub free : s.lock.owner ≡ none → s.lock.counter ≡ 0
  pub fresh : (i : ℕ) → claims (s.pc i) ≡ true → s.depth i ≡ 0
  pub bounded : (i : ℕ) → s.depth i ≤ s.calls

Step-calls : {s t : System} → Step s t → s.calls ≤ t.calls
Step-calls (again i e h) = omega arith
Step-calls (test i e h) = omega arith
Step-calls (win i e h) = omega arith
Step-calls (lose i e) = omega arith
Step-calls (enter i e) = omega arith
Step-calls (leave i full e p h) = omega arith
Step-calls (free i e) = omega arith

Step-Inv : {s t : System} → Step s t → t.calls < 2 ^ 64 → Inv s → Inv t
unfolding claim count uncount disown
Step-Inv {s} (again i e h) few v = record {
  owner = λ j. ground (arith, v.owner j, v.owner i);
  counter = λ j q. ground (arith, v.counter j);
  free = v.free;
  fresh = λ j q. ground (arith, v.fresh j);
  bounded = v.bounded;
}
Step-Inv {s} (test i e h) few v = record {
  owner = λ j. ground (arith, v.owner j, v.owner i);
  counter = λ j q. ground (arith, v.counter j);
  free = v.free;
  fresh = λ j q. ground (arith, v.fresh j, v.owner i);
  bounded = v.bounded;
}
Step-Inv {s} (win i e h) few v = record {
  owner = λ j. ground (arith, v.owner j, v.owner i);
  counter = λ j q. ground (arith, v.free, v.fresh i, v.owner i, v.owner j);
  free = λ q. ground (arith, v.free);
  fresh = λ j q. ground (arith, v.fresh j, v.owner i);
  bounded = v.bounded;
}
Step-Inv {s} (lose i e) few v = record {
  owner = λ j. ground (arith, v.owner j, v.owner i);
  counter = λ j q. ground (arith, v.counter j);
  free = v.free;
  fresh = λ j q. ground (arith, v.fresh j, v.owner i);
  bounded = v.bounded;
}
Step-Inv {s} (enter i e) few v = record {
  owner = λ j. ground (arith, v.owner j, v.owner i);
  counter = λ j q. ground (arith, v.counter j, v.owner i, v.owner j, v.bounded i);
  free = λ q. ground (arith, v.free, v.owner i);
  fresh = λ j q. ground (arith, v.fresh j, v.owner i);
  bounded = λ j. ground (arith, v.bounded j, v.bounded i);
}
Step-Inv {s} (leave i full e p h) few v = record {
  owner = λ j. ground (arith, v.owner j, v.owner i);
  counter = λ j q. ground (arith, v.counter j, v.owner i, v.owner j, v.bounded i);
  free = λ q. ground (arith, v.free, v.owner i);
  fresh = λ j q. ground (arith, v.fresh j, v.owner i);
  bounded = λ j. ground (arith, v.bounded j, v.bounded i);
}
Step-Inv {s} (free i e) few v = record {
  owner = λ j. ground (arith, v.owner j, v.owner i, v.counter i, v.counter j);
  counter = λ j q. ground (arith, v.counter j);
  free = λ q. ground (arith, v.free);
  fresh = λ j q. ground (arith, v.fresh j, v.owner i);
  bounded = v.bounded;
}

Reach-Inv : {s : System} → Reach s → s.calls < 2 ^ 64 → Inv s
Reach-Inv here few = record {
  owner = λ i. refl;
  counter = λ i q. cc;
  free = λ q. refl;
  fresh = λ i q. cc;
  bounded = λ i. omega arith;
}
Reach-Inv (later r st) few = Step-Inv st few (Reach-Inv r (omega (arith, Step-calls st)))

-- In every state reachable with fewer than 2 ^ 64 acquisitions, a thread with an acquisition that it
-- has not released is the owner, so no two threads have one, and the counter is the number of its
-- acquisitions.
pub owner_depth :
    {s : System}
    → Reach s
    → s.calls < 2 ^ 64
    → (i j : ℕ) → 0 < s.depth i
    → 0 < s.depth j
    → (s.lock.owner ≡ some i) × (s.lock.counter ≡ s.depth i) × (i ≡ j)
owner_depth {s} r few i j h q =
    let v = Reach-Inv r few in
    (
      ground (arith, v.owner i),
      ground (arith, v.owner i, v.counter i),
      ground (arith, v.owner i, v.owner j),
    )

-- In every state reachable with fewer than 2 ^ 64 acquisitions, a thread that is outside the lock's
-- functions and has acquired may release, the counter is then the acquisitions that are left, 0 if
-- `full`, and the lock gets free exactly when none is left.
pub release_depth :
    {s : System}
    → Reach s
    → s.calls < 2 ^ 64
    → (i : ℕ) → s.pc i ≡ outside
    → 0 < s.depth i
    → (full : Bool)
    → (l : OwnerLock) × (uncount full i s.lock ≡ some l)
      × (l.counter ≡ (if full then 0 else s.depth i - 1))
      × ((disown l).owner ≡ (if full || (s.depth i == 1) then none else some i))
unfolding uncount disown
release_depth {s} r few i e h full =
    let v = Reach-Inv r few in
    let o : s.lock.owner ≡ some i = ground (arith, v.owner i) in
    (
      record s.lock { counter = if full then 0 else (s.lock.counter + 2 ^ 64 - 1) % 2 ^ 64 },
      ground (arith, o),
      ground (arith, v.counter i o, v.bounded i),
      ground (arith, o, v.counter i o, v.bounded i),
    )

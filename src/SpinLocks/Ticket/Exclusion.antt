-- ===== src/SpinLocks/Ticket/Exclusion.antt =====
-- Mutual exclusion of the ticket lock, and the assertion of `release`.
use libfibre.Base.{ℕ, ◌^◌, ◌≤◌, ◌<◌, ◌≡◌, refl, ◌≢◌, Option, none, some, arith}
use libfibre.SpinLocks.Ticket.{
  Pc, trying, spinning, holding, take, try_take, release, System, Step, acquire, enter, test, read,
  win, lose, leave, Reach, here, later,
}

-- The ticket that a thread has drawn and not given back.
abbrev pub drawn : Pc → Option ℕ
drawn (spinning x) = some x
drawn (holding x) = some x
drawn _ = none

abbrev Entered : Pc → ℕ → Type 0
Entered (holding x) serving = x ≡ serving
Entered (trying x) serving = x ≤ serving
Entered _ serving = Unit

-- As long as the tickets have not run through all 64 bits.
pub record Inv (s : System) : Type 0 where
  pub ticket : s.lock.ticket ≡ s.issued
  pub ordered : s.lock.serving ≤ s.lock.ticket
  pub range : (i x : ℕ) → drawn (s.pc i) ≡ some x → (s.lock.serving ≤ x) × (x < s.lock.ticket)
  pub unique : (i j x : ℕ) → drawn (s.pc i) ≡ some x → drawn (s.pc j) ≡ some x → i ≡ j
  pub entered : (i : ℕ) → Entered (s.pc i) s.lock.serving

Step-issued : {s t : System} → Step s t → s.issued ≤ t.issued
Step-issued (acquire i e) = omega arith
Step-issued (enter i x e h) = omega arith
Step-issued (test i e) = omega arith
Step-issued (read i e) = omega arith
Step-issued (win i x e h) = omega arith
Step-issued (lose i x e h) = omega arith
Step-issued (leave i x e h) = omega arith

Step-Inv : {s t : System} → Step s t → t.issued < 2 ^ 63 → Inv s → Inv t
unfolding take try_take release
Step-Inv {s} (acquire i e) few v = record {
  ticket = ground (arith, v.ticket);
  ordered = ground (arith, v.ordered, v.ticket);
  range = λ j x q. ground (arith, v.range j x, v.ordered, v.ticket);
  unique = λ j k x p q. ground (arith, v.unique j k x, v.range j x, v.range k x, v.ticket);
  entered = λ j. ground (arith, v.entered j);
}
Step-Inv {s} (enter i x e h) few v = record {
  ticket = v.ticket;
  ordered = v.ordered;
  range = λ j y q. ground (arith, v.range j y);
  unique = λ j k y p q. ground (arith, v.unique j k y);
  entered = λ j. ground (arith, v.entered j);
}
Step-Inv {s} (test i e) few v = record {
  ticket = v.ticket;
  ordered = v.ordered;
  range = λ j y q. ground (arith, v.range j y);
  unique = λ j k y p q. ground (arith, v.unique j k y);
  entered = λ j. ground (arith, v.entered j);
}
Step-Inv {s} (read i e) few v = record {
  ticket = v.ticket;
  ordered = v.ordered;
  range = λ j y q. ground (arith, v.range j y);
  unique = λ j k y p q. ground (arith, v.unique j k y);
  entered = λ j. ground (arith, v.entered j);
}
Step-Inv {s} (win i x e h) few v = record {
  ticket = ground (arith, v.ticket);
  ordered = ground (arith, v.ordered, v.ticket);
  range = λ j y q. ground (arith, v.range j y, v.ordered, v.ticket, v.entered i);
  unique = λ j k y p q. ground (arith, v.unique j k y, v.range j y, v.range k y, v.ticket);
  entered = λ j. ground (arith, v.entered j, v.entered i, v.ordered);
}
Step-Inv {s} (lose i x e h) few v = record {
  ticket = v.ticket;
  ordered = v.ordered;
  range = λ j y q. ground (arith, v.range j y);
  unique = λ j k y p q. ground (arith, v.unique j k y);
  entered = λ j. ground (arith, v.entered j);
}
Step-Inv {s} (leave i x e h) few v = record {
  ticket = ground (arith, v.ticket);
  ordered = ground (arith, v.ordered, v.ticket, v.range i x, v.entered i);
  range = λ j y q.
      ground (arith, v.range j y, v.range i x, v.ordered, v.ticket, v.entered i, v.unique i j x);
  unique = λ j k y p q. ground (arith, v.unique j k y);
  entered = λ j. ground (
    arith,
    v.entered j,
    v.entered i,
    v.range i x,
    v.unique i j x,
    v.range j x,
    v.ordered,
    v.ticket,
  );
}

pub Reach-Inv : {s : System} → Reach s → s.issued < 2 ^ 63 → Inv s
Reach-Inv here few = record {
  ticket = refl;
  ordered = omega arith;
  range = λ i x q. cc;
  unique = λ i j x q. cc;
  entered = λ i. tt;
}
Reach-Inv (later r st) few =
    let less = Step-issued st in Step-Inv st few (Reach-Inv r (omega arith))

-- Until 2 ^ 63 tickets have been issued, two threads never hold the lock together.
pub ticket_mutual_exclusion :
    {s : System}
    → Reach s
    → s.issued < 2 ^ 63
    → (i j x y : ℕ) → s.pc i ≡ holding x
    → s.pc j ≡ holding y
    → i ≡ j
ticket_mutual_exclusion {s} r few i j x y hi hj =
    let v = Reach-Inv r few in
    v.unique i j s.lock.serving (ground (arith, v.entered i)) (ground (arith, v.entered j))

-- Until 2 ^ 63 tickets have been issued, the lock is held in the order of the tickets: no thread
-- that waits has drawn an earlier ticket than the holder.
pub first_come :
    {s : System}
    → Reach s
    → s.issued < 2 ^ 63
    → (i j x y : ℕ) → s.pc i ≡ holding x
    → drawn (s.pc j) ≡ some y
    → x ≤ y
first_come r few i j x y hi dj = let v = Reach-Inv r few in ground (arith, v.entered i, v.range j y)

-- Until 2 ^ 63 tickets have been issued, the assertion of `release` holds for every holder.
pub release_allowed :
    {s : System}
    → Reach s
    → s.issued < 2 ^ 63
    → (i x : ℕ) → s.pc i ≡ holding x
    → release s.lock ≢ none
unfolding release
release_allowed r few i x h =
    let v = Reach-Inv r few in ground (arith, v.entered i, v.range i x, v.ticket)

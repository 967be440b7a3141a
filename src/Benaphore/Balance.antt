-- ===== src/Benaphore/Balance.antt =====
-- The counter of a benaphore balances the calls that have to block with those that have to resume.
use libfibre.Base.{ℕ, ◌+◌, ◌≤◌, ◌≡◌, refl, sym, ◌≢◌, Bool, true, not, ◌||◌, leb, arith}
use libfibre.Base.Int.{ℤ, pos_part, neg_part}
use libfibre.Benaphore.{
  p, may_try, try_p, v, fails, v_round, Pc, idle, trying, rounds, System, Step, down, read,
  exchange, up, begin, retry, finish, Reach, here, later,
}

-- What a thread expects of the counter.
abbrev Expects : Bool → Pc → Type 0
Expects binary idle = Unit
Expects binary (trying c) = 1 ≤ pos_part c
Expects binary (rounds c) = (binary ≡ true) × (pos_part c ≡ 0)

pub record Inv (binary : Bool) (c : ℕ) (s : System) : Type 0 where
  pub owed : neg_part s.counter + s.resumes ≡ s.blocked
  pub permits : pos_part s.counter + s.opened ≡ c + s.stored
  pub expects : (i : ℕ) → Expects binary (s.pc i)
  pub capped : binary ≡ true → pos_part s.counter ≤ 1

Step-Inv :
    (binary : Bool) (c : ℕ) {s t : System} → Step binary s t → Inv binary c s → Inv binary c t
unfolding p may_try try_p v v_round
Step-Inv binary c {s} (down i b n e h) w = record {
  owed = ground (arith, w.owed);
  permits = ground (arith, w.permits);
  expects = w.expects;
  capped = λ q. ground (arith, w.capped q);
}
Step-Inv binary c {s} (read i e h) w = record {
  owed = w.owed;
  permits = w.permits;
  expects = λ j. ground (arith, w.expects j);
  capped = w.capped;
}
Step-Inv binary c {s} (exchange i x b n e h) w = record {
  owed = ground (arith, w.owed, w.expects i);
  permits = ground (arith, w.permits, w.expects i);
  expects = λ j. ground (arith, w.expects j);
  capped = λ q. ground (arith, w.capped q, w.expects i);
}
Step-Inv binary c {s} (up i b n e f h) w = record {
  owed = ground (arith, w.owed);
  permits = ground (arith, w.permits);
  expects = w.expects;
  capped = λ q. cc;
}
Step-Inv binary c {s} (begin i e f) w = record {
  owed = w.owed;
  permits = w.permits;
  expects = λ j. ground (arith, w.expects j);
  capped = w.capped;
}
Step-Inv binary c {s} (retry i x y n e h) w = record {
  owed = ground (arith, w.owed, w.expects i);
  permits = ground (arith, w.permits, w.expects i);
  expects = λ j. ground (arith, w.expects j, w.expects i);
  capped = λ q. ground (arith, w.capped q, w.expects i);
}
Step-Inv binary c {s} (finish i x b n e h) w = record {
  owed = ground (arith, w.owed, w.expects i);
  permits = ground (arith, w.permits, w.expects i);
  expects = λ j. ground (arith, w.expects j);
  capped = λ q. ground (arith, w.capped q, w.expects i);
}

Reach-Inv :
    (binary : Bool) (c : ℕ)
    → (binary ≡ true → c ≤ 1)
    → {s : System} → Reach binary c s
    → Inv binary c s
Reach-Inv binary c h here = record { owed = refl; permits = refl; expects = λ i. tt; capped = h }
Reach-Inv binary c h (later r st) = Step-Inv binary c st (Reach-Inv binary c h r)

-- A benaphore starts with some permits, at most one if it is binary. In every reachable state the calls
-- of `P` that had to block are those of `V` that had to resume and as many as the counter is below 0;
-- the calls that got through and the counter, where it is above 0, are the first permits and those
-- that `V` has stored; and a binary counter is at most 1.
pub benaphore_balance :
    (binary : Bool) (c : ℕ)
    → (binary ≡ true → c ≤ 1)
    → {s : System} → Reach binary c s
    → (s.blocked ≡ neg_part s.counter + s.resumes)
      × (pos_part s.counter + s.opened ≡ c + s.stored)
      × ((not binary || leb (pos_part s.counter) 1) ≡ true)
benaphore_balance binary c h r =
    let w = Reach-Inv binary c h r in (sym w.owed, w.permits, ground (arith, w.capped))

-- In every reachable state of a benaphore that starts with at most one permit if it is binary, a round
-- of the loop in `V` does not fail its assertions.
pub v_round-returns :
    (binary : Bool) (c : ℕ)
    → (binary ≡ true → c ≤ 1)
    → {s : System} → Reach binary c s
    → (i : ℕ) (x : ℤ) → s.pc i ≡ rounds x
    → (v_round x s.counter).0 ≢ fails
unfolding v_round
v_round-returns binary c h {s} r i x e =
    let w = Reach-Inv binary c h r in ground (arith, w.expects i, w.capped)

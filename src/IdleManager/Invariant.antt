-- ===== src/IdleManager/Invariant.antt =====
-- The invariant of the idle manager, kept by each of its operations.
use libfibre.Base.{
  length-erase, ℕ, ◌+◌, ◌≤◌, ◌≡◌, ◌⊎◌, Bool, true, false, ◌&&◌, Option, none, some, [], ◌∷◌, ◌++◌,
  arith, update, mem, erase, length, length-append, Distinct, Distinct-erase, mem-erase,
}
use libfibre.Base.Int.{ℤ, pos_part, neg_part}
use libfibre.IdleManager.{
  IdleManager, set_halting, block, unblock, get_ready_fred, Proc, working, trying, blocking, halted,
  Adder, idle, unblocking, System, count_to, landed, woken,
}

abbrev pub is_blocking : Proc → Bool
is_blocking blocking = true
is_blocking _ = false

abbrev pub is_halted : Proc → Bool
is_halted halted = true
is_halted _ = false

abbrev pub is_unblocking : Adder → Bool
is_unblocking idle = false
is_unblocking (unblocking _ _) = true

abbrev pub Expects : Proc → Type 0
Expects (trying c) = 1 ≤ pos_part c
Expects _ = Unit

abbrev pub Apart : IdleManager → Type 0
Apart m = (m.waiting_freds ≡ []) ⊎ (m.waiting_procs ≡ [])

pub record Inv (wake_own : Bool) (s : System) : Type 0 where
  pub distinct_b : Distinct s.blockers
  pub distinct_a : Distinct s.adders
  pub distinct_p : Distinct s.manager.waiting_procs
  pub blocker : (p : ℕ) → mem p s.blockers ≡ is_blocking (s.proc p)
  pub waiter : (p : ℕ) → mem p s.manager.waiting_procs ≡ is_halted (s.proc p)
  pub add_er : (a : ℕ) → mem a s.adders ≡ is_unblocking (s.adder a)
  pub flagged : (p : ℕ) → (wake_own && s.manager.halting p) ≡ (wake_own && is_halted (s.proc p))
  pub expects : (p : ℕ) → Expects (s.proc p)
  pub apart : Apart s.manager
  pub balance :
      neg_part s.manager.fred_counter + (length s.adders + length s.manager.waiting_freds)
      ≡ length s.blockers + length s.manager.waiting_procs

-- A step of the counter alone.
pub counted :
    {wake_own : Bool} {s : System} (n : ℤ)
    → Inv wake_own s
    → neg_part n ≡ neg_part s.manager.fred_counter
    → Inv wake_own (record s { manager = count_to n s.manager })
counted n v e = record {
  distinct_b = v.distinct_b;
  distinct_a = v.distinct_a;
  distinct_p = v.distinct_p;
  blocker = v.blocker;
  waiter = v.waiter;
  add_er = v.add_er;
  flagged = v.flagged;
  expects = v.expects;
  apart = v.apart;
  balance = omega (arith, v.balance, e);
}

-- A processor that is at work before and after.
pub moved :
    {wake_own : Bool} {s : System} (p : ℕ) (q : Proc)
    → Inv wake_own s
    → (is_blocking (s.proc p) ≡ false)
    → (is_halted (s.proc p) ≡ false)
    → (is_blocking q ≡ false)
    → (is_halted q ≡ false)
    → Expects q
    → Inv wake_own (record s { proc = update s.proc p q })
moved p q v b h c d e = record {
  distinct_b = v.distinct_b;
  distinct_a = v.distinct_a;
  distinct_p = v.distinct_p;
  blocker = λ j. ground (arith, v.blocker j, v.blocker p);
  waiter = λ j. ground (arith, v.waiter j, v.waiter p);
  add_er = v.add_er;
  flagged = λ j. ground (arith, v.flagged j, v.flagged p);
  expects = λ j. ground (arith, v.expects j);
  apart = v.apart;
  balance = v.balance;
}

pub unready-Inv :
    {wake_own : Bool} {s : System} (p : ℕ) (n : ℤ)
    → Inv wake_own s
    → s.proc p ≡ working
    → get_ready_fred s.manager.fred_counter ≡ (false, n)
    → Inv wake_own (record s {
      manager = count_to n s.manager;
      proc = update s.proc p blocking;
      blockers = p ∷ s.blockers;
    })
unfolding get_ready_fred
unready-Inv p n v e h = record {
  distinct_b = ground (arith, v.distinct_b, v.blocker p);
  distinct_a = v.distinct_a;
  distinct_p = v.distinct_p;
  blocker = λ j. ground (arith, v.blocker j, v.blocker p);
  waiter = λ j. ground (arith, v.waiter j, v.waiter p);
  add_er = v.add_er;
  flagged = λ j. ground (arith, v.flagged j, v.flagged p);
  expects = λ j. ground (arith, v.expects j);
  apart = v.apart;
  balance = ground (arith, v.balance);
}

pub run_block-Inv :
    (wake_own : Bool) {s : System} (p : ℕ) (q : Option ℕ) (m : IdleManager)
    → Inv wake_own s
    → s.proc p ≡ blocking
    → block wake_own p s.manager ≡ (q, m)
    → Inv wake_own
        (record s { manager = m; proc = landed p q s.proc; blockers = erase p s.blockers })
unfolding block
run_block-Inv wake_own {s} p q m v e h = record {
  distinct_b = Distinct-erase p s.blockers v.distinct_b;
  distinct_a = v.distinct_a;
  distinct_p = ground (arith, v.distinct_p, v.waiter p);
  blocker = λ j. ground (arith, v.blocker j, v.blocker p, mem-erase p j s.blockers v.distinct_b);
  waiter = λ j. ground (arith, v.waiter j, v.waiter p);
  add_er = v.add_er;
  flagged = λ j. ground (arith, v.flagged j, v.flagged p);
  expects = λ j. ground (arith, v.expects j);
  apart = ground (arith, v.apart);
  balance = ground (arith, v.balance, v.blocker p, length-erase p s.blockers);
}

-- `unblock` takes a halted processor out of the list, or adds the fred to the other list.
abbrev pub Unblocks : Bool → ℕ → IdleManager → Option ℕ → IdleManager → Type 0
Unblocks wake_own f m none n =
    (m.waiting_procs ≡ []) × (n ≡ record m { waiting_freds = m.waiting_freds ++ f ∷ [] })
Unblocks wake_own f m (some g) n =
    (mem g m.waiting_procs ≡ true)
    × (n ≡ record m {
      waiting_procs = erase g m.waiting_procs;
      halting = set_halting wake_own g false m.halting;
    })

pub unblock_lem :
    (wake_own : Bool) (f p : ℕ) (m : IdleManager)
    → ((wake_own && m.halting p) ≡ true → mem p m.waiting_procs ≡ true)
    → Unblocks wake_own f m (unblock wake_own f p m).0 (unblock wake_own f p m).1
unfolding unblock
unblock_lem wake_own f p m h = ground (arith, h)

pub given-Inv :
    (wake_own : Bool) {s : System} (a f p : ℕ) (q : Option ℕ) (m : IdleManager)
    → Inv wake_own s
    → s.adder a ≡ unblocking f p
    → Unblocks wake_own f s.manager q m
    → Inv wake_own (record s {
      manager = m;
      proc = woken f q s.proc;
      adder = update s.adder a idle;
      adders = erase a s.adders;
    })
given-Inv wake_own {s} a f p none m v e (h, u) = record {
  distinct_b = v.distinct_b;
  distinct_a = Distinct-erase a s.adders v.distinct_a;
  distinct_p = ground (arith, u, h);
  blocker = v.blocker;
  waiter = λ j. ground (arith, u, v.waiter j);
  add_er = λ j. ground (arith, v.add_er j, v.add_er a, mem-erase a j s.adders v.distinct_a);
  flagged = λ j. ground (arith, u, v.flagged j);
  expects = v.expects;
  apart = ground (arith, u, h);
  balance = ground (
    arith,
    u,
    h,
    v.balance,
    v.add_er a,
    length-erase a s.adders,
    length-append s.manager.waiting_freds (f ∷ []),
  );
}
given-Inv wake_own {s} a f p (some g) m v e (h, u) = record {
  distinct_b = v.distinct_b;
  distinct_a = Distinct-erase a s.adders v.distinct_a;
  distinct_p = ground (arith, u, Distinct-erase g s.manager.waiting_procs v.distinct_p);
  blocker = λ j. ground (arith, v.blocker j, v.waiter g, h);
  waiter = λ j. ground (arith, u, v.waiter j, mem-erase g j s.manager.waiting_procs v.distinct_p);
  add_er = λ j. ground (arith, v.add_er j, v.add_er a, mem-erase a j s.adders v.distinct_a);
  flagged = λ j. ground (arith, u, v.flagged j, v.waiter g, h);
  expects = λ j. ground (arith, v.expects j);
  apart = ground (arith, u, h, v.apart);
  balance = ground (
    arith,
    u,
    h,
    v.balance,
    v.add_er a,
    length-erase a s.adders,
    length-erase g s.manager.waiting_procs h,
  );
}

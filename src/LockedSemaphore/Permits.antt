-- ===== src/LockedSemaphore/Permits.antt =====
-- No permit is lost or made up: the counter, the permits taken and the permits on their way to a
-- fred that has been woken add up to the initial count and the calls of `V`.
use libfibre.Base.{
  length-erase, ℕ, suc, ◌+◌, ◌≡◌, refl, ◌≢◌, Bool, false, ◌&&◌, Option, none, some, arith, ◌==◌,
  inl, inr, Bool-cases, mem, length, Distinct, Distinct-erase, mem-erase,
}
use libfibre.Base.Int.{ℤ, pos, pos_part, neg_part, ltb_ℤ}
use libfibre.Freds.{prepare_race, race_resume, resume}
use libfibre.BlockingQueue.{BlockingQueue, Args, may_block, block, block_enter, block_leave, notify}
use libfibre.BlockingQueue.Order.{live, first, first-live, handed, without, unblock_lem}
use libfibre.BlockingQueue.Coherence.{IsCoherent, first-mem}
use libfibre.LockedSemaphore.{internal_p, p_leave, settle, v, try_v}
use libfibre.LockedSemaphore.System.{
  System, init, granting, do_p, do_leave, do_v, do_try_v, do_expire, Step, enter, leave, post,
  try_post, discard, expire, Reach, here, later,
}
use libfibre.LockedSemaphore.Invariant.{Reach-Inv}

-- A fred is in `granted` exactly while it is inside `P` and `unblock` has won its race.
pub record Ledger (c : ℤ) (s : System) : Type 0 where
  pub distinct : Distinct s.granted
  pub member :
      (f : ℕ)
      → mem f s.granted
        ≡ ((s.freds.blocked_on f == s.sem.bq.address) && (s.freds.info f == s.sem.bq.address))
  pub balance :
      pos_part s.sem.counter + s.acquired + length s.granted + neg_part c
      ≡ neg_part s.sem.counter + pos_part c + s.posted

do_p-Ledger :
    (c : ℤ) (args : Args) (f : ℕ) (s : System)
    → IsCoherent s.sem.bq s.freds
    → s.freds.blocked_on f ≡ 0
    → Ledger c s
    → Ledger c (do_p args f s)
unfolding do_p internal_p block block_enter prepare_race
do_p-Ledger c args f s i free l = elim (Bool-cases (ltb_ℤ s.sem.counter (pos 1))) [
  | inl e ↦ rw e (elim (Bool-cases (may_block args)) [
    | inl e' ↦ rw e' (record {
      distinct = l.distinct;
      member = λ g. ground (arith, l.member g, i.nonnull);
      balance = l.balance;
    })
    | inr e' ↦ rw e' (record { distinct = l.distinct; member = l.member; balance = l.balance })
  ])
  | inr e ↦
      rw e
        (record { distinct = l.distinct; member = l.member; balance = ground (arith, l.balance) })
]

do_leave-Ledger :
    (c : ℤ) (f : ℕ) (s : System)
    → IsCoherent s.sem.bq s.freds
    → s.freds.blocked_on f ≡ s.sem.bq.address
    → Ledger c s
    → Ledger c (do_leave f s)
unfolding do_leave p_leave block_leave
do_leave-Ledger c f s i inside l = elim (Bool-cases (s.freds.info f == s.sem.bq.address)) [
  | inl e ↦ rw e (record {
    distinct = Distinct-erase f s.granted l.distinct;
    member = λ g. ground (arith, l.member g, i.nonnull, mem-erase f g s.granted l.distinct);
    balance = ground (arith, l.balance, l.member f, length-erase f s.granted);
  })
  | inr e ↦ rw e (record {
    distinct = l.distinct;
    member = λ g. ground (arith, l.member g, i.nonnull);
    balance = l.balance;
  })
]

-- `V` with the fred that `unblock` found.
grant-Ledger :
    (c : ℤ) (enqueue : Bool) (s : System) (next : Option ℕ)
    → next ≡ first (live s.sem.bq s.freds)
    → IsCoherent s.sem.bq s.freds
    → Ledger c s
    → let bq : BlockingQueue = record s.sem.bq { queue = without next s.sem.bq.queue } in
      Ledger c (record s {
        sem = settle false next s.sem bq;
        freds = notify enqueue next (notify false next (handed s.sem.bq.address next s.freds));
        posted = suc s.posted;
        granted = granting next s.granted;
      })
unfolding settle resume
grant-Ledger c enqueue s none e i l = record {
  distinct = l.distinct;
  member = l.member;
  balance = ground (arith, l.balance);
}
grant-Ledger c enqueue s (some f) e i l = record {
  distinct =
      ground
        (arith, l.distinct, l.member f, i.nonnull, first-live s.freds.info s.sem.bq.queue {f = f});
  member = λ g. ground (
    arith,
    l.member g,
    i.member f,
    i.nonnull,
    first-live s.freds.info s.sem.bq.queue {f = f},
    first-mem s.freds.info s.sem.bq.queue f,
  );
  balance = ground (arith, l.balance);
}

do_v-Ledger :
    (c : ℤ) (enqueue : Bool) (s : System)
    → IsCoherent s.sem.bq s.freds
    → Ledger c s
    → Ledger c (do_v false enqueue s)
unfolding do_v v
do_v-Ledger c enqueue s i l =
    rw (unblock_lem false s.sem.bq s.freds) (grant-Ledger c enqueue s _ refl i l)

hand-Ledger :
    (c : ℤ) (enqueue : Bool) (s : System) (next : Option ℕ)
    → next ≡ first (live s.sem.bq s.freds)
    → IsCoherent s.sem.bq s.freds
    → Ledger c s
    → Ledger c (record s {
      sem = record s.sem { bq = record s.sem.bq { queue = without next s.sem.bq.queue } };
      freds = notify enqueue next (notify false next (handed s.sem.bq.address next s.freds));
      posted = elim next [ none ↦ s.posted | some _ ↦ suc s.posted ];
      granted = granting next s.granted;
    })
unfolding settle
hand-Ledger c enqueue s none e i l = record {
  distinct = l.distinct;
  member = l.member;
  balance = l.balance;
}
hand-Ledger c enqueue s (some f) e i l =
    let done = grant-Ledger c enqueue s (some f) e i l in
    record { distinct = done.distinct; member = done.member; balance = done.balance }

do_try_v-Ledger :
    (c : ℤ) (enqueue : Bool) (s : System)
    → IsCoherent s.sem.bq s.freds
    → Ledger c s
    → Ledger c (do_try_v enqueue s)
unfolding do_try_v try_v
do_try_v-Ledger c enqueue s i l =
    rw (unblock_lem false s.sem.bq s.freds) (hand-Ledger c enqueue s _ refl i l)

do_expire-Ledger :
    (c : ℤ) (f timer : ℕ) (s : System)
    → timer ≢ s.sem.bq.address
    → IsCoherent s.sem.bq s.freds
    → Ledger c s
    → Ledger c (do_expire f timer s)
unfolding do_expire race_resume
do_expire-Ledger c f timer s ne i l = record {
  distinct = l.distinct;
  member = λ g. ground (arith, l.member g, i.nonnull);
  balance = l.balance;
}

Step-Ledger :
    {c : ℤ} {s t : System} → Step false s t → IsCoherent s.sem.bq s.freds → Ledger c s → Ledger c t
Step-Ledger {c} {s} (enter f args free) i l = do_p-Ledger c args f s i free l
Step-Ledger {c} {s} (leave f inside decided) i l = do_leave-Ledger c f s i inside l
Step-Ledger {c} {s} (post enqueue) i l = do_v-Ledger c enqueue s i l
Step-Ledger {c} {s} (try_post enqueue) i l = do_try_v-Ledger c enqueue s i l
Step-Ledger {c} {s} (discard f args e free) i l = cc
Step-Ledger {c} {s} (expire f timer nz ne) i l = do_expire-Ledger c f timer s ne i l

-- In every state that freds and timers can bring a counting semaphore to, the counter plus the
-- permits that calls of `P` returned with plus the freds that `V` or `tryV` woke and that have not
-- returned yet is the initial count plus the permits that `V` and `tryV` gave out.
pub permits_conserved :
    {c : ℤ} {address : ℕ} {s : System} → address ≢ 0 → Reach false (init c address) s → Ledger c s
permits_conserved {c} {address} nz here = record {
  distinct = tt;
  member = λ f. ground arith;
  balance = omega arith;
}
permits_conserved nz (later r st) =
    Step-Ledger st (Reach-Inv nz (λ e. cc) r).coherent (permits_conserved nz r)

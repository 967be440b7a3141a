-- ===== src/GoManager/System.antt =====
-- Processors that run out of freds, and callers of `unblock` that have made one ready. The ready queues are those
-- of a build with TESTING_LOCKED_READYQUEUE, in which `enqueue` holds the lock of the queue too.
use libfibre.Base.{
  ℕ, suc, ◌≡◌, ◌⊎◌, Bool, true, false, Option, List, [], if◌then◌else◌, update, mem,
}
use libfibre.GoManager.{
  GoManager, inc_spinning, dec_spinning, inc_waiting, dec_waiting, unblock_spin, block, Round,
  unblock_round,
}

-- Why a processor looks for a fred: to run it next after the current one, in the loop of `scheduleIdle` that spins,
-- or in the last search before it blocks, which has passed the queues that are `seen`.
pub data Mode : Type 0 where
  runs spins : Mode
  waits : (seen : ℕ → Bool) → Mode

-- A processor: between two accesses to ready queues, holding the lock of one, with a fred from the loop that spins
-- or from the last search, behind that loop, about to block, halted, and taken out of the list by a caller of
-- `unblock` that has yet to wake it. One that runs a fred, or starts `scheduleIdle`, is at `doing runs`.
pub data Pc : Type 0 where
  doing : Mode → Pc
  dequeuing : (q : ℕ) → Mode → Pc
  found found_late spun blocking halted leaving : Pc

-- `ready` counts the freds in a ready queue, and `lock` is its `readyLock`; a processor's queue has its number.
-- `unblockers` counts the calls of `unblock` that are under way.
pub record System : Type 0 where
  pub manager : GoManager
  pub pc : ℕ → Pc
  pub ready : ℕ → ℕ
  pub lock : ℕ → Bool
  pub unblockers : ℕ

abbrev pub init : System
init = record {
  manager = record { spin_counter = 0; wait_counter = 0; waiting_procs = []; halting = λ _. false };
  pc = λ _. doing runs;
  ready = λ _. 0;
  lock = λ _. false;
  unblockers = 0;
}

abbrev pub go : ℕ → Pc → System → System
go i c s = record s { pc = update s.pc i c }

-- `readyLock` of q is taken or released, and the number of its freds is now n.
abbrev pub queue : (q n : ℕ) → Bool → System → System
queue q n locked s = record s { ready = update s.ready q n; lock = update s.lock q locked }

abbrev pub plus_if : Bool → ℕ → ℕ
plus_if b n = if b then suc n else n

-- The search goes on behind the queue of q.
unfoldable pub passed : ℕ → Mode → Mode
passed q runs = runs
passed q spins = spins
passed q (waits seen) = waits (update seen q true)

-- The search returns a fred.
unfoldable pub returns : Mode → Pc
returns runs = doing runs
returns spins = found
returns (waits seen) = found_late

pub data Step (procs : List ℕ) (s : System) : System → Type 0 where
  -- `enqueueResume` takes the lock of a queue, and puts a fred in.
  enter :
      (q : ℕ)
      → mem q procs ≡ true
      → s.lock q ≡ false
      → Step procs s (record s { lock = update s.lock q true })
  put :
      (q : ℕ)
      → mem q procs ≡ true
      → s.lock q ≡ true
      → Step procs s (record (queue q (suc (s.ready q)) false s) { unblockers = suc s.unblockers })
  -- `dequeue`, or `tryDequeue`, takes the lock; it pops a fred, or finds none.
  seize :
      (i q : ℕ) (m : Mode)
      → mem i procs ≡ true
      → mem q procs ≡ true
      → s.pc i ≡ doing m
      → s.lock q ≡ false
      → Step procs s (go i (dequeuing q m) (record s { lock = update s.lock q true }))
  pop :
      (i q k : ℕ) (m : Mode)
      → mem i procs ≡ true
      → s.pc i ≡ dequeuing q m
      → s.ready q ≡ suc k
      → Step procs s (go i (returns m) (queue q k false s))
  pop_none :
      (i q : ℕ) (m : Mode)
      → mem i procs ≡ true
      → s.pc i ≡ dequeuing q m
      → s.ready q ≡ 0
      → Step procs s (go i (doing (passed q m)) (record s { lock = update s.lock q false }))
  -- `tryDequeue` sees an empty queue, or fails to get the lock.
  fail :
      (i q : ℕ) (m : Mode)
      → mem i procs ≡ true
      → s.pc i ≡ doing m
      → s.ready q ≡ 0 ⊎ s.lock q ≡ true
      → Step procs s (go i (doing (passed q m)) s)
  -- `enqueueYield`, by a processor that goes on with another fred and has the lock.
  yield :
      (i q : ℕ)
      → mem i procs ≡ true
      → s.pc i ≡ dequeuing q runs
      → Step procs s (go i (doing runs) (queue q (suc (s.ready q)) false s))
  spin :
      (i : ℕ)
      → mem i procs ≡ true
      → s.pc i ≡ doing runs
      → Step procs s (go i (doing spins) (record s { manager = inc_spinning s.manager }))
  find :
      (i : ℕ) (b : Bool) (m : GoManager)
      → mem i procs ≡ true
      → s.pc i ≡ found
      → unblock_spin s.manager ≡ (b, m)
      → Step procs s
          (go i (doing runs) (record s { manager = m; unblockers = plus_if b s.unblockers }))
  stop :
      (i : ℕ)
      → mem i procs ≡ true
      → s.pc i ≡ doing spins
      → Step procs s (go i spun (record s { manager = dec_spinning s.manager }))
  wait :
      (i : ℕ)
      → mem i procs ≡ true
      → s.pc i ≡ spun
      → Step procs s
          (go i (doing (waits (λ _. false))) (record s { manager = inc_waiting s.manager }))
  find_late :
      (i : ℕ)
      → mem i procs ≡ true
      → s.pc i ≡ found_late
      → Step procs s (go i (doing runs) (record s { manager = dec_waiting s.manager }))
  -- The last search has passed all queues.
  find_none :
      (i : ℕ) (seen : ℕ → Bool)
      → mem i procs ≡ true
      → s.pc i ≡ doing (waits seen)
      → ((q : ℕ) → mem q procs ≡ true → seen q ≡ true)
      → Step procs s (go i blocking s)
  halt :
      (i : ℕ)
      → mem i procs ≡ true
      → s.pc i ≡ blocking
      → Step procs s (go i halted (record s { manager = block i s.manager }))
  finish :
      (k : ℕ) (a : Bool) (p : Option ℕ) (m : GoManager)
      → s.unblockers ≡ suc k
      → unblock_round a p s.manager ≡ (Round.returns, m)
      → Step procs s (record s { manager = m; unblockers = k })
  choose :
      (k q : ℕ) (a : Bool) (p : Option ℕ) (m : GoManager)
      → s.unblockers ≡ suc k
      → unblock_round a p s.manager ≡ (Round.wakes q, m)
      → Step procs s (go q leaving (record s { manager = m; unblockers = k }))
  wake :
      (i : ℕ)
      → mem i procs ≡ true
      → s.pc i ≡ leaving
      → Step procs s (go i (doing runs) (record s { manager = dec_waiting s.manager }))

pub data Reach (procs : List ℕ) : System → Type 0 where
  here : Reach procs init
  later : {s t : System} → Reach procs s → Step procs s t → Reach procs t

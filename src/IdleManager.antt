-- ===== src/IdleManager.antt =====
-- class IdleManager of src/runtime/Scheduler.h, built with TESTING_LOADBALANCING and without
-- TESTING_GO_IDLEMANAGER, and `halt` and `wake` of src/runtime/BaseProcessor.h.
pub mod Invariant
pub mod Matching
mod Tests
use libfibre.Base.{
  ℕ, ◌≡◌, Bool, true, false, ◌&&◌, Option, none, some, List, [], ◌∷◌, ◌++◌, if◌then◌else◌, update,
  erase,
}
use libfibre.Base.Int.{ℤ, pos, inc, dec, ltb_ℤ, eqb_ℤ}

-- `halting` is the flag of each processor, which exists if TESTING_WAKE_FRED_WORKER is set.
pub record IdleManager : Type 0 where
  pub fred_counter : ℤ
  pub waiting_procs : List ℕ
  pub waiting_freds : List ℕ
  pub halting : ℕ → Bool

abbrev pub set_halting : (wake_own : Bool) → ℕ → Bool → (ℕ → Bool) → ℕ → Bool
set_halting wake_own proc h halting = if wake_own then update halting proc h else halting

-- `block`: the fred that the processor gets, or it halts.
abbrev block_with : (wake_own : Bool) → ℕ → IdleManager → List ℕ → Option ℕ × IdleManager
block_with wake_own proc m [] = (
  none,
  record m {
    waiting_procs = proc ∷ m.waiting_procs;
    halting = set_halting wake_own proc true m.halting;
  },
)
block_with wake_own proc m (f ∷ fs) = (some f, record m { waiting_freds = fs })

unfoldable pub block : (wake_own : Bool) → ℕ → IdleManager → Option ℕ × IdleManager
block wake_own proc m = block_with wake_own proc m m.waiting_freds

-- `unblock`: the processor that is woken, if any, else the fred waits.
abbrev unblock_with :
    (wake_own : Bool) → (fred next_proc : ℕ) → IdleManager → List ℕ → Option ℕ × IdleManager
unblock_with wake_own fred next_proc m [] =
    (none, record m { waiting_freds = m.waiting_freds ++ fred ∷ [] })
unblock_with wake_own fred next_proc m (p ∷ ps) =
    let own : Bool = wake_own && m.halting next_proc in
    let chosen : ℕ = if own then next_proc else p in
    (
      some chosen,
      record m {
        waiting_procs = if own then erase next_proc (p ∷ ps) else ps;
        halting = set_halting wake_own chosen false m.halting;
      },
    )

unfoldable pub unblock :
    (wake_own : Bool) → (fred next_proc : ℕ) → IdleManager → Option ℕ × IdleManager
unblock wake_own fred next_proc m = unblock_with wake_own fred next_proc m m.waiting_procs

-- `tryGetReadyFred`: the test, and the compare-exchange from the value `c` that it read.
unfoldable pub may_get : ℤ → Bool
may_get c = ltb_ℤ (pos 0) c

unfoldable pub try_get : (c : ℤ) → ℤ → Bool × ℤ
try_get c counter = if eqb_ℤ counter c then (true, dec c) else (false, counter)

-- `getReadyFred`: true if a fred is ready somewhere, else `block` follows.
unfoldable pub get_ready_fred : ℤ → Bool × ℤ
get_ready_fred counter = (ltb_ℤ (pos 0) counter, dec counter)

-- `addReadyFred`: false if the fred is to be enqueued, else `unblock` follows.
unfoldable pub add_ready_fred : ℤ → Bool × ℤ
add_ready_fred counter =
    if ltb_ℤ (pos 0) (inc counter) then (false, inc counter) else (true, inc counter)

-- A processor: at work, in `tryGetReadyFred`, about to run `block`, halted, or holding the fred that it
-- got, by `block` or by `wake`.
pub data Proc : Type 0 where
  working : Proc
  trying : (c : ℤ) → Proc
  blocking : Proc
  halted : Proc
  handed : (fred : ℕ) → Proc

-- A caller of `addReadyFred`.
pub data Adder : Type 0 where
  idle : Adder
  unblocking : (fred next_proc : ℕ) → Adder

-- `blockers` and `adders` only observe: the processors about to run `block`, and the callers about to
-- run `unblock`.
pub record System : Type 0 where
  pub manager : IdleManager
  pub proc : ℕ → Proc
  pub adder : ℕ → Adder
  pub blockers : List ℕ
  pub adders : List ℕ

abbrev pub init : System
init = record {
  manager = record {
    fred_counter = pos 0;
    waiting_procs = [];
    waiting_freds = [];
    halting = λ _. false;
  };
  proc = λ _. working;
  adder = λ _. idle;
  blockers = [];
  adders = [];
}

abbrev pub count_to : ℤ → IdleManager → IdleManager
count_to c m = record m { fred_counter = c }

abbrev pub landed : ℕ → Option ℕ → (ℕ → Proc) → ℕ → Proc
landed p none proc = update proc p halted
landed p (some f) proc = update proc p (handed f)

abbrev pub woken : ℕ → Option ℕ → (ℕ → Proc) → ℕ → Proc
woken f none proc = proc
woken f (some p) proc = update proc p (handed f)

pub data Step (wake_own : Bool) (s : System) : System → Type 0 where
  read :
      (p : ℕ)
      → s.proc p ≡ working
      → may_get s.manager.fred_counter ≡ true
      → Step wake_own s (record s { proc = update s.proc p (trying s.manager.fred_counter) })
  exchange :
      (p : ℕ) (c : ℤ) (b : Bool) (n : ℤ)
      → s.proc p ≡ trying c
      → try_get c s.manager.fred_counter ≡ (b, n)
      → Step wake_own s
          (record s { manager = count_to n s.manager; proc = update s.proc p working })
  ready :
      (p : ℕ) (n : ℤ)
      → s.proc p ≡ working
      → get_ready_fred s.manager.fred_counter ≡ (true, n)
      → Step wake_own s (record s { manager = count_to n s.manager })
  unready :
      (p : ℕ) (n : ℤ)
      → s.proc p ≡ working
      → get_ready_fred s.manager.fred_counter ≡ (false, n)
      → Step wake_own s (record s {
        manager = count_to n s.manager;
        proc = update s.proc p blocking;
        blockers = p ∷ s.blockers;
      })
  run_block :
      (p : ℕ) (f : Option ℕ) (m : IdleManager)
      → s.proc p ≡ blocking
      → block wake_own p s.manager ≡ (f, m)
      → Step wake_own s
          (record s { manager = m; proc = landed p f s.proc; blockers = erase p s.blockers })
  resume :
      (p f : ℕ)
      → s.proc p ≡ handed f
      → Step wake_own s (record s { proc = update s.proc p working })
  enqueue :
      (a : ℕ) (n : ℤ)
      → s.adder a ≡ idle
      → add_ready_fred s.manager.fred_counter ≡ (false, n)
      → Step wake_own s (record s { manager = count_to n s.manager })
  add :
      (a f p : ℕ) (n : ℤ)
      → s.adder a ≡ idle
      → add_ready_fred s.manager.fred_counter ≡ (true, n)
      → Step wake_own s (record s {
        manager = count_to n s.manager;
        adder = update s.adder a (unblocking f p);
        adders = a ∷ s.adders;
      })
  run_unblock :
      (a f p : ℕ) (q : Option ℕ) (m : IdleManager)
      → s.adder a ≡ unblocking f p
      → unblock wake_own f p s.manager ≡ (q, m)
      → Step wake_own s (record s {
        manager = m;
        proc = woken f q s.proc;
        adder = update s.adder a idle;
        adders = erase a s.adders;
      })

pub data Reach (wake_own : Bool) : System → Type 0 where
  here : Reach wake_own init
  later : {s t : System} → Reach wake_own s → Step wake_own s t → Reach wake_own t

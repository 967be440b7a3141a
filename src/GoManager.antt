-- ===== src/GoManager.antt =====
-- class IdleManager of src/runtime/Scheduler.h, and `scheduleIdle` and `enqueueResume` of
-- src/runtime/BaseProcessor.cc, built with TESTING_GO_IDLEMANAGER. Each critical section of `procLock` and
-- each access to a counter is one atomic step; those of the ready queues are cut where the lock is taken and released.
pub mod System
pub mod Counting
pub mod Rounds
pub mod Moves
pub mod Looks
pub mod Waking
mod Tests
use libfibre.Base.{
  ℕ, ◌+◌, ◌-◌, ◌%◌, ◌^◌, Bool, true, false, not, ◌&&◌, Option, none, some, List, [], ◌∷◌, ◌==◌, ltb,
  if◌then◌else◌, update, erase,
}

-- The counters are `size_t`. `halting` is the flag of each processor.
pub record GoManager : Type 0 where
  pub spin_counter : ℕ
  pub wait_counter : ℕ
  pub waiting_procs : List ℕ
  pub halting : ℕ → Bool

-- `incSpinning` and `incWaiting`; `decSpinning` and `decWaiting`.
abbrev pub up : ℕ → ℕ
up n = (n + 1) % 2 ^ 64

abbrev pub down : ℕ → ℕ
down n = (n + 2 ^ 64 - 1) % 2 ^ 64

unfoldable pub inc_spinning : GoManager → GoManager
inc_spinning m = record m { spin_counter = up m.spin_counter }

unfoldable pub dec_spinning : GoManager → GoManager
dec_spinning m = record m { spin_counter = down m.spin_counter }

unfoldable pub inc_waiting : GoManager → GoManager
inc_waiting m = record m { wait_counter = up m.wait_counter }

unfoldable pub dec_waiting : GoManager → GoManager
dec_waiting m = record m { wait_counter = down m.wait_counter }

-- `unblockSpin`: true if `unblock` follows.
unfoldable pub unblock_spin : GoManager → Bool × GoManager
unfolding dec_spinning
unblock_spin m = (down m.spin_counter == 0, dec_spinning m)

-- `block`, up to `halt`.
unfoldable pub block : ℕ → GoManager → GoManager
block proc m = record m {
  waiting_procs = proc ∷ m.waiting_procs;
  halting = update m.halting proc true;
}

-- One round of the loop in `unblock`: it returns, tries again, or takes a processor out that it is to wake.
pub data Round : Type 0 where
  returns again : Round
  wakes : (proc : ℕ) → Round

-- `next_proc` is none for the null pointer.
unfoldable pub is_own : Option ℕ → GoManager → Bool
is_own none m = false
is_own (some p) m = m.halting p

abbrev pub or_first : Option ℕ → ℕ → ℕ
or_first none first = first
or_first (some p) first = p

abbrev pub picked : ℕ → List ℕ → GoManager → Round × GoManager
picked q rest m = (wakes q, record m { waiting_procs = rest; halting = update m.halting q false })

abbrev pub chosen : Option ℕ → GoManager → List ℕ → Round × GoManager
chosen next_proc m [] = (again, m)
chosen next_proc m (p ∷ ps) =
    if is_own next_proc m
    then picked (or_first next_proc p) (erase (or_first next_proc p) (p ∷ ps)) m
    else picked p ps m

unfoldable pub unblock_round : (acquired : Bool) → Option ℕ → GoManager → Round × GoManager
unblock_round acquired next_proc m =
    if not (ltb 0 m.wait_counter)
    then (returns, m)
    else if not acquired
    then (again, m)
    else chosen next_proc m m.waiting_procs

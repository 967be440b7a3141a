-- ===== src/SpinLocks/Binary.antt =====
-- class BinaryLock of src/runtime/SpinLocks.h. Each shared access is one atomic step.
pub mod Exclusion
mod Tests
use libfibre.Base.{
  ℕ, ◌≡◌, Bool, true, false, not, Option, none, some, List, [], ◌∷◌, ◌++◌, if◌then◌else◌, update,
  erase,
}

-- `__atomic_test_and_set`: true if the lock is got, in a round of `acquire` and behind the test in `tryAcquire`.
unfoldable pub test_and_set : (locked : Bool) → Bool × Bool
test_and_set locked = (not locked, true)

-- `tryAcquire`, from the value that it read and the present one.
unfoldable pub try_acquire : (read locked : Bool) → Bool × Bool
unfolding test_and_set
try_acquire read locked = if read then (false, locked) else test_and_set locked

-- `release`; `none` if its assertion fails.
unfoldable pub release : (locked : Bool) → Option Bool
release locked = if locked then some false else none

-- Outside; in `acquire`; in `tryAcquire`, with the value that it read; and inside.
pub data Pc : Type 0 where
  idle acquiring holding : Pc
  trying : (read : Bool) → Pc

-- `holders` only observes: the threads inside.
pub record System : Type 0 where
  pub locked : Bool
  pub pc : ℕ → Pc
  pub holders : List ℕ

abbrev pub init : System
init = record { locked = false; pc = λ _. idle; holders = [] }

abbrev pub go : ℕ → Pc → System → System
go i c s = record s { pc = update s.pc i c }

pub data Step (s : System) : System → Type 0 where
  begin : (i : ℕ) → s.pc i ≡ idle → Step s (go i acquiring s)
  read : (i : ℕ) → s.pc i ≡ idle → Step s (go i (trying s.locked) s)
  attempt :
      (i : ℕ) (l : Bool)
      → s.pc i ≡ acquiring
      → test_and_set s.locked ≡ (true, l)
      → Step s (go i holding (record s { locked = l; holders = s.holders ++ i ∷ [] }))
  retry :
      (i : ℕ) (l : Bool)
      → s.pc i ≡ acquiring
      → test_and_set s.locked ≡ (false, l)
      → Step s (record s { locked = l })
  attempt_try :
      (i : ℕ) (r l : Bool)
      → s.pc i ≡ trying r
      → try_acquire r s.locked ≡ (true, l)
      → Step s (go i holding (record s { locked = l; holders = s.holders ++ i ∷ [] }))
  refuse :
      (i : ℕ) (r l : Bool)
      → s.pc i ≡ trying r
      → try_acquire r s.locked ≡ (false, l)
      → Step s (go i idle (record s { locked = l }))
  leave :
      (i : ℕ) (l : Bool)
      → s.pc i ≡ holding
      → release s.locked ≡ some l
      → Step s (go i idle (record s { locked = l; holders = erase i s.holders }))

pub data Reach : System → Type 0 where
  here : Reach init
  later : {s t : System} → Reach s → Step s t → Reach t

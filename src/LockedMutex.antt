-- ===== src/LockedMutex.antt =====
-- class LockedMutex of src/runtime/BlockingSync.h, for both values of its template flag `Fifo`. Each
-- function is one critical section of the internal lock; `acquire` is cut where the fred suspends.
pub mod System
pub mod Ownership
pub mod Wakeup
mod Tests
use libfibre.Base.{ℕ, Bool, true, false, ◌&&◌, Option, none, some, ◌==◌, if◌then◌else◌}
use libfibre.Freds.{Freds}
use libfibre.BlockingQueue.{BlockingQueue, Args, block, block_leave, notify, unblock}

pub record Mutex : Type 0 where
  pub owner : Option ℕ
  pub bq : BlockingQueue

abbrev pub is_owner : Option ℕ → ℕ → Bool
is_owner none f = false
is_owner (some g) f = g == f

abbrev pub is_none : Option ℕ → Bool
is_none none = true
is_none (some _) = false

-- What a fred that calls `acquire` does next: return a result, suspend, or start over.
pub data Attempt : Type 0 where
  returns : Bool → Attempt
  suspends : Attempt
  retries : Attempt

-- `internalAcquire`: the owner test, then one round of the loop, up to the suspension.
unfoldable pub internal_acquire :
    (owner_lock : Bool) → Args → ℕ → Mutex → Freds → Attempt × Mutex × Freds
internal_acquire owner_lock args f m w =
    if owner_lock && is_owner m.owner f
    then (returns true, m, w)
    else if is_none m.owner
    then (returns true, record m { owner = some f }, w)
    else (let (parked, bq, w') = block args f m.bq w in
        (if parked then suspends else returns false, record m { bq = bq }, w'))

-- `internalAcquire`, from the resumption to the end of the round.
unfoldable pub acquire_leave : (fifo : Bool) → ℕ → Mutex → Freds → Attempt × Mutex × Freds
acquire_leave fifo f m w =
    let (done, bq, w') = block_leave f m.bq w in
    (
      if done then (if fifo then returns true else retries) else returns false,
      record m { bq = bq },
      w',
    )

-- `release`: with `Fifo` the mutex goes to the fred that is woken, else it is free.
unfoldable pub release : (fifo : Bool) → Mutex → Freds → Option ℕ × Mutex × Freds
release fifo m w =
    let (next, bq, w') = unblock false m.bq w in
    (next, record m { owner = if fifo then next else none; bq = bq }, notify true next w')

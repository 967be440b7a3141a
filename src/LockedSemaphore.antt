-- ===== src/LockedSemaphore.antt =====
-- class LockedSemaphore of src/runtime/BlockingSync.h. Each function is one critical section of the
-- internal lock; `P` is cut where the fred suspends, and `p_leave` is what it does when resumed.
pub mod System
pub mod Invariant
pub mod Permits
mod Tests
use libfibre.Base.{ℕ, Bool, true, false, Option, none, some, ◌==◌, if◌then◌else◌}
use libfibre.Base.Int.{ℤ, pos, ltb_ℤ, inc, dec}
use libfibre.Freds.{Freds}
use libfibre.BlockingQueue.{BlockingQueue, Args, flag, block, block_leave, notify, unblock}

pub data SemaphoreResult : Type 0 where
  semaphore_timeout semaphore_success semaphore_was_open : SemaphoreResult

-- The lock is held exactly during one function. `counter` is an `ssize_t`.
pub record Semaphore : Type 0 where
  pub counter : ℤ
  pub bq : BlockingQueue

-- `internalP`: its result if it returns at once, `none` if the fred suspends.
unfoldable pub internal_p :
    Args → ℕ → Semaphore → Freds → Option SemaphoreResult × Semaphore × Freds
internal_p args f s w =
    if ltb_ℤ s.counter (pos 1)
    then (let (parked, bq, w') = block args f s.bq w in
        (if parked then none else some semaphore_timeout, record s { bq = bq }, w'))
    else (some semaphore_was_open, record s { counter = dec s.counter }, w)

-- `P`
abbrev pub p : Args → ℕ → Semaphore → Freds → Option SemaphoreResult × Semaphore × Freds
p = internal_p

-- `tryP`
abbrev pub try_p : ℕ → Semaphore → Freds → Option SemaphoreResult × Semaphore × Freds
try_p = internal_p (flag false)

-- `wait`, of a binary semaphore: discards a pending `V` first. Its assertions, that the semaphore is binary and
-- the counter not negative, are left out, so that it is defined in more states.
unfoldable pub wait : Args → ℕ → Semaphore → Freds → Option SemaphoreResult × Semaphore × Freds
wait args f s w = internal_p args f (record s { counter = pos 0 }) w

-- `internalP`, from the resumption.
unfoldable pub p_leave : ℕ → Semaphore → Freds → SemaphoreResult × Semaphore × Freds
p_leave f s w =
    let (done, bq, w') = block_leave f s.bq w in
    (if done then semaphore_success else semaphore_timeout, record s { bq = bq }, w')

-- The branch of `V`: only a permit that no fred takes is counted.
unfoldable pub settle : Bool → Option ℕ → Semaphore → BlockingQueue → Semaphore
settle binary (some f) s bq = record s { bq = bq }
settle binary none s bq = record s { bq = bq; counter = if binary then pos 1 else inc s.counter }

-- `V<Enqueue>`: the fred that got the permit, if any.
unfoldable pub v : (binary enqueue : Bool) → Semaphore → Freds → Option ℕ × Semaphore × Freds
unfolding settle
v binary enqueue s w =
    let (next, bq, w') = unblock false s.bq w in
    (next, settle binary next s bq, notify enqueue next w')

-- `tryV<Enqueue>`: hands a permit over only if a fred waits.
unfoldable pub try_v : (enqueue : Bool) → Semaphore → Freds → Option ℕ × Semaphore × Freds
try_v enqueue s w =
    let (next, bq, w') = unblock false s.bq w in
    (next, record s { bq = bq }, notify enqueue next w')

-- ===== src/FastMutex.antt =====
-- class SpinSemMutex of src/runtime/BlockingSync.h over FredBenaphore<LimitedSemaphore0, true>, which is
-- FastMutex. Each atomic operation, push and pop is one step.
pub mod Spinning
pub mod System
pub mod Invariant
pub mod Steps
pub mod Wakeup
mod Tests
use libfibre.Base.{ℕ, Bool, true, false, ◌&&◌, Option, none, some, ◌==◌, if◌then◌else◌}
use libfibre.Base.Int.{ℤ}
use libfibre.Benaphore
use libfibre.LockedSemaphore.{
  SemaphoreResult, semaphore_was_open, semaphore_success, semaphore_timeout,
}

-- FredBenaphore: `P` over its benaphore; `none` if `sem.P` follows.
unfoldable pub p : ℤ → Option SemaphoreResult × ℤ
p counter =
    let (passed, c) = Benaphore.p counter in (if passed then some semaphore_was_open else none, c)

-- `tryP`, from the value that it read.
unfoldable pub try_p : (c : ℤ) → ℤ → SemaphoreResult × ℤ
try_p c counter =
    if Benaphore.may_try c
    then (let (passed, n) = Benaphore.try_p c counter in
        (if passed then semaphore_was_open else semaphore_timeout, n))
    else (semaphore_timeout, counter)

-- SpinSemMutex: `tryLock`, with 0 for the null pointer.
unfoldable pub try_lock : ℕ → ℕ → Bool × ℕ
try_lock f owner = if owner == 0 then (true, f) else (false, owner)

-- `internalAcquire`, up to the call of `Spin`: it returns, spins or fails its assertion.
pub data Entry : Type 0 where
  returns : Bool → Entry
  spins : Entry
  fails : Entry

unfoldable pub internal_acquire : (owner_lock try_only : Bool) → ℕ → ℕ → Entry × ℕ
internal_acquire owner_lock try_only f owner =
    if owner_lock && (f == owner)
    then (returns true, owner)
    else if f == owner
    then (fails, owner)
    else if try_only
    then (let (b, o) = try_lock f owner in (returns b, o))
    else (spins, owner)

-- `release`, up to `sem.V`; `none` if its assertion fails.
unfoldable pub release : ℕ → ℕ → Option ℕ
release f owner = if owner == f then some 0 else none

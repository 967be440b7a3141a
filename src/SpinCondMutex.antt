-- ===== src/SpinCondMutex.antt =====
-- classes SpinCondMutex, ConditionalQueue and OwnerMutex of src/runtime/BlockingSync.h, cut at each access to
-- shared memory. The numbers of spins and yields are left open: whether a loop goes on is an argument.
pub mod System
pub mod Exclusion
pub mod Holder
pub mod Parking
pub mod Wakeup
pub mod Watching
pub mod Recursion
mod Tests
use libfibre.Base.{
  ℕ, ◌+◌, ◌-◌, ◌%◌, ◌^◌, Bool, true, false, not, ◌&&◌, Option, none, some, ◌==◌, ltb, if◌then◌else◌,
  update,
}
use libfibre.Freds.{Freds}
use libfibre.BlockingQueue.{
  BlockingQueue, Args, flag, deadline, block, block_leave, notify, unblock,
}

-- `queue_lock` is the fred that holds the lock of `queue`, between the two steps of ConditionalQueue::block.
pub record Mutex : Type 0 where
  pub queue : BlockingQueue
  pub queue_lock : Option ℕ
  pub value : ℕ
  pub owner : Option ℕ

abbrev pub is_fred : Option ℕ → ℕ → Bool
is_fred none f = false
is_fred (some g) f = g == f

-- Where a fred is: `trying once` before `tryLock1`, and `swapping` before `tryLock2`; `claimed` when it has
-- changed the value and is about to write `owner`; `clearing` in `release` between the two writes,
-- `notifying` before `unblock`; `asking` before `queue.block`, and `parking` inside it with the lock, when
-- the value was 2.
pub data Phase : Type 0 where
  idle : Phase
  trying : (once : Bool) → Phase
  swapping : Phase
  claimed : Phase
  holding : Phase
  clearing : Phase
  notifying : Phase
  asking : Phase
  parking : Phase
  suspended : Phase

-- `tryOnly`
unfoldable pub try_only : Args → Bool
try_only (flag wait) = not wait
try_only (deadline timeout now) = false

-- The start of `internalAcquire`; `none` if the assertion fails.
unfoldable pub start : (owner_lock : Bool) → Args → ℕ → Mutex → Option Phase
unfolding try_only
start owner_lock args f m =
    if owner_lock && is_fred m.owner f
    then some holding
    else if is_fred m.owner f
    then none
    else some (trying (try_only args))

-- The compare-exchange of `tryLock1`.
unfoldable pub try_lock1 : Mutex → Bool × Mutex
try_lock1 m = if m.value == 0 then (true, record m { value = 1 }) else (false, m)

-- What follows `tryLock1`: high contention, or the end of the first spinning, leads to `tryLock2`.
unfoldable pub after_try1 : (once more won : Bool) → (exp : ℕ) → Phase
after_try1 once more won exp =
    if won
    then claimed
    else if once
    then idle
    else if exp == 2
    then swapping
    else if more
    then trying false
    else swapping

-- The exchange of `tryLock2`.
unfoldable pub try_lock2 : Mutex → Bool × Mutex
try_lock2 m = (m.value == 0, record m { value = 2 })

unfoldable pub after_try2 : (more won : Bool) → Phase
after_try2 more won = if won then claimed else if more then swapping else asking

unfoldable pub write_owner : Option ℕ → Mutex → Mutex
write_owner o m = record m { owner = o }

-- The exchange in `release`, and what follows it.
unfoldable pub release_value : Mutex → Phase × Mutex
release_value m = (if m.value == 1 then idle else notifying, record m { value = 0 })

-- ConditionalQueue::block, the lock and the test: true if the value is 2, and the lock is kept.
unfoldable pub ask : ℕ → Mutex → Bool × Mutex
ask f m = if m.value == 2 then (true, record m { queue_lock = some f }) else (false, m)

-- ConditionalQueue::block, BlockingQueue::block under the lock: true if the fred suspends.
unfoldable pub park : Args → ℕ → Mutex → Freds → Bool × Mutex × Freds
park args f m w =
    let (parked, queue, w') = block args f m.queue w in
    (parked, record m { queue = queue; queue_lock = none }, w')

-- From the resumption to the end of ConditionalQueue::block.
unfoldable pub leave : ℕ → Mutex → Freds → Bool × Mutex × Freds
leave f m w =
    let (done, queue, w') = block_leave f m.queue w in (done, record m { queue = queue }, w')

-- ConditionalQueue::unblock, and the resumption.
unfoldable pub wake : Mutex → Freds → Mutex × Freds
wake m w =
    let (next, queue, w') = unblock false m.queue w in
    (record m { queue = queue }, notify true next w')

-- What class OwnerMutex adds: the depth of the owner's acquisitions.
pub record Owner : Type 0 where
  pub counter : ℕ
  pub recursion : Bool

-- OwnerMutex::acquire, once the base's `internalAcquire` has returned.
unfoldable pub acquired : (success : Bool) → Owner → ℕ × Owner
acquired success o =
    let counter' : ℕ = (o.counter + 1) % 2 ^ 64 in
    if success then (counter', record o { counter = counter' }) else (0, o)

-- OwnerMutex::release: the result, whether the base is released, and the new state.
unfoldable pub released : Owner → (ℕ × Bool) × Owner
released o =
    let counter' : ℕ = (o.counter + 2 ^ 64 - 1) % 2 ^ 64 in
    (if ltb 0 counter' then (counter', false) else (0, true), record o { counter = counter' })

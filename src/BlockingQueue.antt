-- ===== src/BlockingQueue.antt =====
-- class BlockingQueue of src/runtime/BlockingSync.h. The caller holds the lock in `block` and `unblock`,
-- so each function here is one critical section. `blockInternal` is cut where the fred suspends:
-- `block_enter` ends with the suspension, `block_leave` is what the resumed fred does.
mod Defs
pub mod Coherence
pub mod Order
pub mod Frame
mod Tests
unfoldable pub use Defs.*

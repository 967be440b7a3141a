-- ===== src/SpinLocks/Barrier.antt =====
-- class SpinBarrier of src/runtime/SpinLocks.h. Its counter is a `size_t` that goes on for ever.
pub mod Passing
mod Tests
use libfibre.Base.{ℕ, ◌+◌, ◌-◌, ◌%◌, ◌^◌, Bool, ◌&&◌, ◌==◌, ltb}

-- `wait`, the addition: the ticket, and the counter.
unfoldable pub arrive : (counter : ℕ) → ℕ × ℕ
arrive counter = (counter, (counter + 1) % 2 ^ 64)

-- The value of the counter that ends a ticket's round. A remainder is at most the number.
unfoldable pub goal : (target cnt : ℕ) → ℕ
goal target cnt = (cnt + target - cnt % target) % 2 ^ 64

-- The test of the loop: `ssize_t(tgt - counter) > 0`.
unfoldable pub waits : (tgt counter : ℕ) → Bool
waits tgt counter = let d : ℕ = (tgt + 2 ^ 64 - counter) % 2 ^ 64 in ltb 0 d && ltb d (2 ^ 63)

-- The result of `wait`.
unfoldable pub is_serial : (cnt tgt : ℕ) → Bool
is_serial cnt tgt = cnt == ((tgt + 2 ^ 64 - 1) % 2 ^ 64)

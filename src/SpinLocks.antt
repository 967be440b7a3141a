-- ===== src/SpinLocks.antt =====
-- src/runtime/SpinLocks.h. Each shared access is one atomic step, in one total order.
pub mod Ticket
pub mod Rw
pub mod Owner
pub mod Barrier
pub mod Binary

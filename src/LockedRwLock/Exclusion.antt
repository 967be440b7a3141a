-- ===== src/LockedRwLock/Exclusion.antt =====
-- Readers and writers exclude each other, and `state` counts the freds that were let in.
pub mod Shared
mod Wakes
pub mod Waits
pub mod Passes
pub mod Moves
mod HandOver
pub mod Reachable

-- ===== src/Semaphore.antt =====
-- src/semaphore.rs. The state and its small operations stand in `Inner`, the loops of `add_permits`
-- in `Release`, the `Acquire` future in `Acquire`; the other modules prove.
pub mod Word
pub mod Inner
pub mod Release
pub mod Acquire
pub mod Serve
pub mod Waits
pub mod Grants
pub mod Fair
pub mod WellFormed
pub mod Futures
pub mod Queued
pub mod Handout
pub mod Public
pub mod Permits
pub mod Effects
pub mod System
pub mod Owned

-- ===== src/Oneshot.antt =====
-- src/oneshot.rs: a channel for one value.
pub mod State
pub mod Word
pub mod Inner
pub mod Spec
pub mod Refine
pub mod Deliver
pub mod Handles
pub mod Worlds
pub mod Fates
pub mod Account
pub mod Attached
pub mod Steps
pub mod Ledger
pub mod Ends

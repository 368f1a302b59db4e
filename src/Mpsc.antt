-- ===== src/Mpsc.antt =====
-- src/mpsc/: the queue of blocks, and the core of the channels with many senders.
pub mod Block
pub mod Layout
pub mod Push
pub mod Pop
pub mod Drain
pub mod Chan
pub mod Handles
pub mod Order
pub mod Fresh
pub mod Bounded
pub mod Unbounded

-- ===== src/Tests.antt =====
-- The theorems applied to concrete states of the program.
mod Lists
mod Semaphores
mod Systems
mod Cells
mod Handles
mod Channels
mod Oneshots
mod Blocks
mod Unbounded

-- ===== src/Lifecycle.antt =====
-- The lifecycles of the run, of the governed action and of the memory record.
pub mod Fault
pub mod Table
pub mod Version
pub mod Run
pub mod Action
pub mod Memory
mod Examples

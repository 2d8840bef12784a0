-- ===== src/Dispatch.antt =====
-- The crate dispatch-executor.
pub mod Handle
pub mod Task
pub mod Executor
pub mod Tasks
pub mod Scheduled
pub mod Submitted
pub mod Attr
pub mod Hash

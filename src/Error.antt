-- ===== src/Error.antt =====
-- The errors of the two crates: corebluetooth/src/error.rs and corebluetooth-async/src/error.rs.
pub mod Codes
pub mod Sync
pub mod Display
pub mod Async
pub mod Kinds
pub mod Messages

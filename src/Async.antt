-- ===== src/Async.antt =====
-- The crate corebluetooth-async.
pub mod Trace
pub mod Oneshot
pub mod Crate
pub mod RefCell
pub mod Guard
pub mod Broadcast
pub mod Peripheral
pub mod Central
pub mod Start
pub mod Asked
pub mod System

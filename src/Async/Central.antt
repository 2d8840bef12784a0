-- ===== src/Async/Central.antt =====
-- `CentralManagerAsync` and its delegate (corebluetooth-async/src/central_manager.rs).
pub mod State
pub mod Delegate
pub mod Connect
pub mod Run
pub mod Linear
pub mod Connecting
pub mod Discovery

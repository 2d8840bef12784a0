-- ===== src/Async/System.antt =====
-- The two crates together: CoreBluetooth calls the bridges of corebluetooth/src/peripheral.rs and
-- central_manager.rs, whose delegates are those of corebluetooth-async/src/peripheral.rs and
-- central_manager.rs, and the program calls `PeripheralAsync` and `CentralManagerAsync`. All of it
-- happens on one serial dispatch queue, for a manager that starts with no peripheral.
pub mod Heard
pub mod Step
pub mod Owned
pub mod Adopted
pub mod Split
pub mod Follows
pub mod Manager
pub mod Managed
pub mod Awaiting
pub mod Failures
pub mod Panics
pub mod Successes
pub mod Connections

-- ===== src/Async/Peripheral.antt =====
-- `PeripheralAsync` and its delegate (corebluetooth-async/src/peripheral.rs).
pub mod State
pub mod Callbacks
pub mod Requests
pub mod Run
pub mod Account
pub mod Linear
pub mod Slots
pub mod CallbackKeeps
pub mod Mailbox
pub mod Observed
pub mod Shown
pub mod Placed
pub mod Answered
pub mod Requested
pub mod Refines
pub mod Untouched
pub mod Senders
pub mod Replies
pub mod Panics
pub mod Topics
pub mod Said
pub mod Spoken
pub mod Heeded
pub mod Announced
pub mod Values
pub mod Delivered
pub mod Subscribed
pub mod Streamed

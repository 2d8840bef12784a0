-- ===== src/Bluetooth.antt =====
-- The crate corebluetooth: what the safe wrapper sends to CoreBluetooth, what it reads of it, and
-- the bridges from its callbacks to the delegate traits.
pub mod Btuuid
pub mod Messages
pub mod Peripheral
pub mod Options
pub mod Central
pub mod Sent
pub mod Foundation
pub mod Advertisement
pub mod Advertised
pub mod Attributes
pub mod L2cap
pub mod Bridge
pub mod CentralBridge
pub mod Bridged
pub mod Manager
pub mod Retrieved
pub mod Gatt
pub mod Channel

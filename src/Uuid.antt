-- ===== src/Uuid.antt =====
-- The Bluetooth UUID functions of corebluetooth/src/btuuid.rs.
mod Bits
pub mod Crate
pub mod Ext
pub mod Value
pub mod Octets
pub mod Assigned

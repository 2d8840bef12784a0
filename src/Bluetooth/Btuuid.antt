-- ===== src/Bluetooth/Btuuid.antt =====
-- `BluetoothUuid` of the third-party crate btuuid, with the variants that corebluetooth/src/util.rs
-- matches on, and `to_cbuuid` of that file. `BluetoothUuid::from_be_slice` is a parameter; its
-- laws are its documented behaviour: it reads 2, 4 or 16 big-endian bytes and refuses any other
-- length.
use corebluetooth_rs.Prelude.{ℕ, ◌^◌, ◌<◌, ◌≡◌, ◌≢◌, Option, none, some, length}
use corebluetooth_rs.Prelude.Bytes.{Bytes, to_be_bytes}

pub data BluetoothUuid : Type 0 where
  uuid16 uuid32 uuid128 : ℕ → BluetoothUuid

-- The value fits the width of its variant.
abbrev pub Fits : BluetoothUuid → Type 0
Fits (BluetoothUuid.uuid16 uuid) = uuid < 2 ^ 16
Fits (BluetoothUuid.uuid32 uuid) = uuid < 2 ^ 32
Fits (BluetoothUuid.uuid128 uuid) = uuid < 2 ^ 128

pub record BtuuidCrate : Type 0 where
  pub from_be_slice : Bytes → Option BluetoothUuid
  pub from_two :
      (x : ℕ) → x < 2 ^ 16 → from_be_slice (to_be_bytes 2 x) ≡ some (BluetoothUuid.uuid16 x)
  pub from_four :
      (x : ℕ) → x < 2 ^ 32 → from_be_slice (to_be_bytes 4 x) ≡ some (BluetoothUuid.uuid32 x)
  pub from_sixteen :
      (x : ℕ) → x < 2 ^ 128 → from_be_slice (to_be_bytes 16 x) ≡ some (BluetoothUuid.uuid128 x)
  pub refused :
      (bytes : Bytes)
      → length bytes ≢ 2
      → length bytes ≢ 4
      → length bytes ≢ 16
      → from_be_slice bytes ≡ none

-- The `NSData` that `CBUUID::UUIDWithData` is given.
unfoldable pub to_cbuuid : BluetoothUuid → Bytes
to_cbuuid (BluetoothUuid.uuid16 uuid) = to_be_bytes 2 uuid
to_cbuuid (BluetoothUuid.uuid32 uuid) = to_be_bytes 4 uuid
to_cbuuid (BluetoothUuid.uuid128 uuid) = to_be_bytes 16 uuid

-- The bytes sent for a UUID whose value fits its variant are read back as that UUID.
pub from_be_slice-to_cbuuid :
    (btuuid : BtuuidCrate) (uuid : BluetoothUuid)
    → Fits uuid
    → BtuuidCrate.from_be_slice btuuid (to_cbuuid uuid) ≡ some uuid
unfolding to_cbuuid
from_be_slice-to_cbuuid btuuid (BluetoothUuid.uuid16 x) h = btuuid.from_two x h
from_be_slice-to_cbuuid btuuid (BluetoothUuid.uuid32 x) h = btuuid.from_four x h
from_be_slice-to_cbuuid btuuid (BluetoothUuid.uuid128 x) h = btuuid.from_sixteen x h

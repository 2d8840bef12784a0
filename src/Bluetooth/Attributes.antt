-- ===== src/Bluetooth/Attributes.antt =====
-- What corebluetooth/src/characteristic.rs, descriptor.rs and service.rs read of an attribute: its
-- UUID and its value. An attribute is what CoreBluetooth gives for `UUID().data()` and `value()`.
use mathlib.Core.Option
use corebluetooth_rs.Prelude.{
  ◌^◌, ◌<◌, ◌≡◌, refl, ap, done, Option, none, some, [], Outcome, unwrap,
}
use corebluetooth_rs.Prelude.Bytes.{Bytes, to_le_bytes, from_le_bytes, from_le_bytes-to_le_bytes}
use corebluetooth_rs.Bluetooth.Btuuid.{
  BluetoothUuid, BtuuidCrate, Fits, to_cbuuid, from_be_slice-to_cbuuid,
}
use corebluetooth_rs.Bluetooth.Foundation.{Object, Number}

pub record CbDescriptor : Type 0 where
  pub uuid_octets : Bytes
  pub current : Option Object

-- `uuid()` of a descriptor, and, with the same body, of a characteristic and of a service.
unfoldable pub uuid : BtuuidCrate → Bytes → Outcome BluetoothUuid
uuid btuuid octets = unwrap (btuuid.from_be_slice octets)

-- A null pointer of `UTF8String` stands for no bytes.
unfoldable value_to_slice : Object → Bytes
value_to_slice (Object.number n) = to_le_bytes 2 n.as_u16
value_to_slice (Object.string s) = elim (s.utf8) [ none ↦ [] | some bytes ↦ bytes ]
value_to_slice (Object.bytes bytes) = bytes
value_to_slice _ = []

unfoldable pub value : CbDescriptor → Option Bytes
unfolding value_to_slice
value descriptor = Option.map value_to_slice descriptor.current

-- The UUID of an attribute whose `CBUUID` was made by `to_cbuuid` is the UUID it was made of, if
-- its value fits its variant.
uuid-to_cbuuid :
    (btuuid : BtuuidCrate) (u : BluetoothUuid) → Fits u → uuid btuuid (to_cbuuid u) ≡ done u
unfolding uuid
uuid-to_cbuuid btuuid u h = rw (from_be_slice-to_cbuuid btuuid u h) refl

-- The value of a descriptor that CoreBluetooth gives as a number is the number's 16 bits as two
-- bytes, the lower first.
value-number :
    (octets : Bytes) (n : Number)
    → n.as_u16 < 2 ^ 16
    → Option.map from_le_bytes
        (value (record { uuid_octets = octets; current = some (Object.number n) }))
      ≡ some n.as_u16
unfolding value value_to_slice
value-number octets n h = ap some (from_le_bytes-to_le_bytes 2 n.as_u16 h)

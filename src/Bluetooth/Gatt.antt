-- ===== src/Bluetooth/Gatt.antt =====
-- What corebluetooth/src/characteristic.rs, service.rs, descriptor.rs, central.rs and peripheral.rs
-- read of the objects that they wrap. Such an object is what CoreBluetooth gives for its
-- properties, other objects by their numbers; a wrapper holds the number of its object.
use mathlib.Core.Option
use corebluetooth_rs.Prelude.{
  ℕ, Option, none, some, List, map, Outcome, done, ◌>>=◌, Result, ok, err,
}
use corebluetooth_rs.Prelude.Bytes.{Bytes, from_be_bytes}
use corebluetooth_rs.Bluetooth.Attributes
use corebluetooth_rs.Bluetooth.Bridge
use corebluetooth_rs.Bluetooth.Bridge.{Delegates, Peripheral, bridge_of}
use corebluetooth_rs.Bluetooth.Btuuid.{BluetoothUuid, BtuuidCrate}
use corebluetooth_rs.Bluetooth.Messages.{WriteType}
use corebluetooth_rs.Bluetooth.Peripheral.{CharacteristicWriteType, cb_write_type}

pub record Characteristic : Type 0 where
  pub characteristic : ℕ

pub record Service : Type 0 where
  pub service : ℕ

pub record Descriptor : Type 0 where
  pub descriptor : ℕ

pub record Central : Type 0 where
  pub central : ℕ

pub record CbCharacteristic : Type 0 where
  pub uuid_octets : Bytes
  pub service : Option ℕ
  pub value : Option Bytes
  pub descriptors : Option (List ℕ)

pub record CbService : Type 0 where
  pub uuid_octets : Bytes
  pub peripheral : Option ℕ
  pub characteristics : Option (List ℕ)
  pub included_services : Option (List ℕ)

abbrev wrap_all : {A : Type 0} → (ℕ → A) → Option (List ℕ) → Option (List A)
wrap_all wrap objects = Option.map (map wrap) objects

-- `Characteristic`
module _ (self : CbCharacteristic) where
  unfoldable characteristic_uuid : BtuuidCrate → Outcome BluetoothUuid
  unfolding Attributes.uuid
  characteristic_uuid btuuid = Attributes.uuid btuuid self.uuid_octets

  unfoldable characteristic_service : Option Service
  characteristic_service = Option.map (λ s. record { service = s }) self.service

  unfoldable characteristic_value : Option Bytes
  characteristic_value = self.value

  unfoldable characteristic_descriptors : Option (List Descriptor)
  characteristic_descriptors = wrap_all (λ d. record { descriptor = d }) self.descriptors

-- `Service`; `Peripheral::new` panics on a peripheral without a bridge.
module _ (self : CbService) where
  unfoldable service_uuid : BtuuidCrate → Outcome BluetoothUuid
  unfolding Attributes.uuid
  service_uuid btuuid = Attributes.uuid btuuid self.uuid_octets

  unfoldable service_peripheral : Delegates → Outcome (Option Peripheral)
  unfolding Bridge.new
  service_peripheral s = elim (self.peripheral) [
    | none ↦ done none
    | some p ↦ do wrapped ← Bridge.new p s; done (some wrapped)
  ]

  unfoldable service_characteristics : Option (List Characteristic)
  service_characteristics = wrap_all (λ c. record { characteristic = c }) self.characteristics

  unfoldable service_included_services : Option (List Service)
  service_included_services = wrap_all (λ s. record { service = s }) self.included_services

-- `Descriptor::characteristic`
unfoldable descriptor_characteristic : Option ℕ → Option Characteristic
descriptor_characteristic characteristic =
    Option.map (λ c. record { characteristic = c }) characteristic

-- `Peripheral::services`, `Peripheral::max_write_value_len` (`maximum` is CoreBluetooth's answer),
-- and `identifier`, which is the same for `Peripheral` and `Central`.
unfoldable services : Option (List ℕ) → Option (List Service)
services objects = wrap_all (λ s. record { service = s }) objects

unfoldable max_write_value_len : (WriteType → ℕ) → CharacteristicWriteType → ℕ
unfolding cb_write_type
max_write_value_len maximum write_type = maximum (cb_write_type write_type)

unfoldable identifier : Bytes → ℕ
identifier octets = from_be_bytes octets

-- A `CBPeer` by its class, and the `TryFrom` of `Peripheral` and of `Central`.
pub data Peer : Type 0 where
  peripheral central : ℕ → Peer

unfoldable pub peripheral_try_from : Delegates → Peer → Outcome (Result Peripheral Peer)
unfolding Bridge.new
peripheral_try_from s (Peer.peripheral p) = do wrapped ← Bridge.new p s; done (ok wrapped)
peripheral_try_from s (Peer.central c) = done (err (Peer.central c))

unfoldable central_try_from : Peer → Outcome (Result Central Peer)
central_try_from (Peer.central c) = done (ok (record { central = c }))
central_try_from (Peer.peripheral p) = done (err (Peer.peripheral p))

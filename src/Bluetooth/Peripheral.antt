-- ===== src/Bluetooth/Peripheral.antt =====
-- The methods of `Peripheral` (corebluetooth/src/peripheral.rs) that send a message to the
-- `CBPeripheral`: the message that each sends, for a peripheral of the given identity.
use mathlib.Core.Option
use corebluetooth_rs.Prelude.{ℕ, Bool, Option, List, map}
use corebluetooth_rs.Prelude.Bytes.{Bytes}
use corebluetooth_rs.Bluetooth.Btuuid.{BluetoothUuid, to_cbuuid}
use corebluetooth_rs.Bluetooth.Messages.{Message, WriteType}

-- `CharacteristicWriteType`, and its two matches onto `CBCharacteristicWriteType`.
pub data CharacteristicWriteType : Type 0 where
  with_response without_response : CharacteristicWriteType

unfoldable pub cb_write_type : CharacteristicWriteType → WriteType
cb_write_type CharacteristicWriteType.with_response = WriteType.with_response
cb_write_type CharacteristicWriteType.without_response = WriteType.without_response

module _ (peripheral : ℕ) where
  unfoldable pub discover_services : Option (List BluetoothUuid) → Message
  discover_services services =
      Message.discover_services peripheral (Option.map (map to_cbuuid) services)

  unfoldable pub discover_included_services : ℕ → Option (List BluetoothUuid) → Message
  discover_included_services service services =
      Message.discover_included_services peripheral (Option.map (map to_cbuuid) services) service

  unfoldable pub discover_characteristics : ℕ → Option (List BluetoothUuid) → Message
  discover_characteristics service characteristics =
      Message.discover_characteristics peripheral (Option.map (map to_cbuuid) characteristics)
        service

  unfoldable pub discover_descriptors : ℕ → Message
  discover_descriptors characteristic = Message.discover_descriptors peripheral characteristic

  unfoldable pub read_characteristic_value : ℕ → Message
  read_characteristic_value characteristic =
      Message.read_value_for_characteristic peripheral characteristic

  unfoldable pub read_descriptor_value : ℕ → Message
  read_descriptor_value descriptor = Message.read_value_for_descriptor peripheral descriptor

  unfoldable pub write_characteristic_value : ℕ → Bytes → CharacteristicWriteType → Message
  write_characteristic_value characteristic bytes write_type =
      Message.write_value_for_characteristic peripheral bytes characteristic
        (cb_write_type write_type)

  unfoldable pub write_descriptor_value : ℕ → Bytes → Message
  write_descriptor_value descriptor bytes =
      Message.write_value_for_descriptor peripheral bytes descriptor

  unfoldable pub set_notify : ℕ → Bool → Message
  set_notify characteristic notify = Message.set_notify_value peripheral notify characteristic

  unfoldable pub read_rssi : Message
  read_rssi = Message.read_rssi peripheral

  unfoldable pub open_l2cap_channel : ℕ → Message
  open_l2cap_channel psm = Message.open_l2cap_channel peripheral psm

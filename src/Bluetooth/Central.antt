-- ===== src/Bluetooth/Central.antt =====
-- The methods of `CentralManager` (corebluetooth/src/central_manager.rs) that send a message to
-- the `CBCentralManager`.
use Prim.Native.String.{String}
use mathlib.Core.Option
use corebluetooth_rs.Prelude.{ℕ, Bool, Option, List, [], ◌∷◌, map, if◌then◌else◌}
use corebluetooth_rs.Prelude.Bytes.{to_be_bytes}
use corebluetooth_rs.Bluetooth.Btuuid.{BluetoothUuid, to_cbuuid}
use corebluetooth_rs.Bluetooth.Messages.{Message, Key, Setting, Dictionary}
use corebluetooth_rs.Bluetooth.Options.{
  ConnectPeripheralOptions, default_options, to_dictionary, set_value, set_some,
}

-- The options that `CentralManager::init` creates the manager with. (It stores the restore
-- identifier by a second `setValue_forKey`.)
unfoldable pub init : Bool → Option String → Message
init show_power_alert restore_id = Message.init_manager (
    set_some Key.restore_identifier (Option.map Setting.text restore_id)
      ((Key.show_power_alert, Setting.boolean show_power_alert) ∷ []))

unfoldable pub connect_with_options : ℕ → ConnectPeripheralOptions → Message
connect_with_options peripheral options =
    Message.connect_peripheral peripheral (to_dictionary options)

unfoldable pub connect : ℕ → Message
unfolding connect_with_options
connect peripheral = connect_with_options peripheral default_options

unfoldable pub cancel_peripheral_connection : ℕ → Message
cancel_peripheral_connection peripheral = Message.cancel_peripheral_connection peripheral

unfoldable pub scan : Option (List BluetoothUuid) → Bool → Option (List BluetoothUuid) → Message
scan services allow_duplicates solicited_services =
    let options : Dictionary =
      if allow_duplicates
      then set_value Key.allow_duplicates (Setting.boolean allow_duplicates) []
      else [] in
    Message.scan_for_peripherals (Option.map (map to_cbuuid) services) (
      set_some Key.solicited_service_uuids
        (Option.map (λ uuids. Setting.uuids (map to_cbuuid uuids)) solicited_services) options)

unfoldable pub stop_scan : Message
stop_scan = Message.stop_scan

-- A peripheral's identifier is the 128-bit value of a `Uuid`, sent as its sixteen bytes.
unfoldable pub register_for_connection_events :
    Option (List ℕ) → Option (List BluetoothUuid) → Message
register_for_connection_events peripherals services = Message.register_for_connection_events (
    set_some Key.matching_service_uuids
      (Option.map (λ uuids. Setting.uuids (map to_cbuuid uuids)) services)
      (set_some Key.matching_peripheral_uuids
        (Option.map (λ ids. Setting.uuids (map (to_be_bytes 16) ids)) peripherals) []))

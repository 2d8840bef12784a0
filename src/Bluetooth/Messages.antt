-- ===== src/Bluetooth/Messages.antt =====
-- The messages that the crate corebluetooth sends to the Objective-C objects of CoreBluetooth:
-- the receiver and the arguments of each `unsafe` call. An object (a peripheral, a service, a
-- characteristic, a descriptor) is known by its identity, a number, which is also what its
-- `PartialEq` compares; a `CBUUID` by its data, a float by its bits.
use Prim.Native.String.{String}
use corebluetooth_rs.Prelude.{ℕ, Bool, Option, List}
use corebluetooth_rs.Prelude.Bytes.{Bytes}

pub data WriteType : Type 0 where
  with_response without_response : WriteType

-- The keys of the option dictionaries.
pub data Key : Type 0 where
  show_power_alert restore_identifier : Key
  allow_duplicates solicited_service_uuids : Key
  matching_peripheral_uuids matching_service_uuids : Key
  enable_auto_reconnect enable_transport_bridging notify_on_connection : Key
  notify_on_disconnection notify_on_notification requires_ancs start_delay : Key

unfoldable pub Key-discrete : Discrete Key
Key-discrete = hlevel

-- What they are set to.
pub data Setting : Type 0 where
  boolean : Bool → Setting
  float : ℕ → Setting
  text : String → Setting
  uuids : List Bytes → Setting

-- The calls of `setValue_forKey` on an empty `NSMutableDictionary`, the latest first.
abbrev pub Dictionary : Type 0
Dictionary = List (Key × Setting)

pub data Message : Type 0 where
  discover_services : ℕ → Option (List Bytes) → Message
  discover_included_services : ℕ → Option (List Bytes) → ℕ → Message
  discover_characteristics : ℕ → Option (List Bytes) → ℕ → Message
  discover_descriptors : ℕ → ℕ → Message
  read_value_for_characteristic : ℕ → ℕ → Message
  read_value_for_descriptor : ℕ → ℕ → Message
  write_value_for_characteristic : ℕ → Bytes → ℕ → WriteType → Message
  write_value_for_descriptor : ℕ → Bytes → ℕ → Message
  set_notify_value : ℕ → Bool → ℕ → Message
  read_rssi : ℕ → Message
  open_l2cap_channel : ℕ → ℕ → Message
  connect_peripheral : ℕ → Dictionary → Message
  cancel_peripheral_connection : ℕ → Message
  scan_for_peripherals : Option (List Bytes) → Dictionary → Message
  stop_scan : Message
  register_for_connection_events : Dictionary → Message
  init_manager : Dictionary → Message

-- ===== src/Async/Peripheral/Topics.antt =====
-- Which broadcast channel of corebluetooth-async/src/peripheral.rs carries which callback, a
-- description apart from the code: the requests that wait for a message of a broadcast channel.
use corebluetooth_rs.Prelude.{ℕ, false, Option, List, [], ◌∷◌, ◌≡◌, ◌≤◌, ◌==◌, if◌then◌else◌}
use corebluetooth_rs.Prelude.HashMap.{HashMap}
use corebluetooth_rs.Async.Peripheral.Callbacks.{convert}
use corebluetooth_rs.Async.Peripheral.Run.{Callback, Request, Input, callback}
use corebluetooth_rs.Async.Peripheral.State.{State, Update, CbResult}
use corebluetooth_rs.Bluetooth.Btuuid.{BluetoothUuid}
use corebluetooth_rs.Prelude.Bytes.{Bytes}

pub data Topic : Type 0 where
  name services rssi discovery ready_to_send : Topic

abbrev pub channel_of : Topic → State → ℕ
channel_of Topic.name s = s.name_updates
channel_of Topic.services s = s.services_changed
channel_of Topic.rssi s = s.rssi_updates
channel_of Topic.discovery s = s.service_discovery
channel_of Topic.ready_to_send s = s.ready_to_send_write_without_response

-- The number of the channel that `default` opens for it.
abbrev pub number : Topic → ℕ
number Topic.name = 0
number Topic.services = 1
number Topic.rssi = 2
number Topic.discovery = 3
number Topic.ready_to_send = 4

-- The request subscribes to the topic and waits.
pub data Subscribes : Request → Topic → Type 0 where
  name : Subscribes Request.name_changed Topic.name
  services : Subscribes Request.services_changed Topic.services
  rssi : Subscribes Request.read_rssi Topic.rssi
  discovery :
      (o : Option (List BluetoothUuid)) → Subscribes (Request.discover_services o) Topic.discovery
  ready_to_send :
      Subscribes (Request.ready_to_send_write_without_response false) Topic.ready_to_send

-- The callback is the topic's, with this message.
pub data Says : Callback → Topic → Update → Type 0 where
  name : (n : Option Bytes) → Says (Callback.did_update_name n) Topic.name (Update.name n)
  services : (l : List ℕ) → Says (Callback.did_modify_services l) Topic.services (Update.services l)
  rssi : (r : CbResult ℕ) → Says (Callback.did_read_rssi r) Topic.rssi (Update.rssi (convert r))
  discovery :
      (r : CbResult (Unit {0}))
      → Says (Callback.did_discover_services r) Topic.discovery (Update.unit (convert r))
  ready_to_send :
      Says Callback.is_ready_to_send_write_without_response Topic.ready_to_send Update.ready

-- How often an input says something on the topic.
abbrev pub one : Topic → Topic → ℕ
one own topic = if number own == number topic then 1 else 0

abbrev pub says : Input → Topic → ℕ
says (callback (Callback.did_update_name n)) topic = one Topic.name topic
says (callback (Callback.did_modify_services l)) topic = one Topic.services topic
says (callback (Callback.did_read_rssi r)) topic = one Topic.rssi topic
says (callback (Callback.did_discover_services r)) topic = one Topic.discovery topic
says (callback Callback.is_ready_to_send_write_without_response) topic =
    one Topic.ready_to_send topic
says _ topic = 0

-- The channels of the topics are those that `default` opened, and those of the characteristics were
-- opened later.
abbrev pub AllLater : HashMap ℕ → Type 0
AllLater [] = Unit
AllLater ((k, channel) ∷ m) = (5 ≤ channel) × AllLater m

pub record IsFixed (s : State) : Type 0 where
  pub topics : (topic : Topic) → channel_of topic s ≡ number topic
  pub later : AllLater s.characteristic_value_updates.value
  pub next : 5 ≤ s.trace.next_broadcast

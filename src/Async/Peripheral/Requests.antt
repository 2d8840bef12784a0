-- ===== src/Async/Peripheral/Requests.antt =====
-- The requests of corebluetooth-async/src/peripheral.rs: the methods of `PeripheralAsyncDelegate`
-- that hand out a receiver, and the methods of `PeripheralAsync` up to their `await`, each a
-- message to CoreBluetooth followed by such a registration. A method returns the state and the
-- number of the channel that it waits on.
use corebluetooth_rs.Prelude.{
  ℕ, Bool, Option, none, some, List, Outcome, done, ◌>>=◌, if◌then◌else◌,
}
use corebluetooth_rs.Prelude.Bytes.{Bytes}
use corebluetooth_rs.Prelude.HashMap.{get, insert}
use corebluetooth_rs.Bluetooth.Btuuid.{BluetoothUuid}
use corebluetooth_rs.Bluetooth.Messages.{Message}
use corebluetooth_rs.Bluetooth.Peripheral
use corebluetooth_rs.Bluetooth.Peripheral.{CharacteristicWriteType}
use corebluetooth_rs.Async.Oneshot.{register, register_cell}
use corebluetooth_rs.Async.RefCell
use corebluetooth_rs.Async.RefCell.{RefCell}
use corebluetooth_rs.Async.Trace.{Call, add, broadcast}
use corebluetooth_rs.Async.Peripheral.State.{State}

abbrev pub tell : Message → State → State
tell message s = record s { trace = add (Call.message message) s.trace }

-- `sender.new_receiver()`
abbrev pub subscribe : ℕ → State → State × ℕ
subscribe sender s = (record s { trace = add (Call.new_receiver sender) s.trace }, sender)

-- The delegate's methods.
unfoldable pub name_updates : State → State × ℕ
name_updates s = subscribe s.name_updates s

unfoldable pub services_changed : State → State × ℕ
services_changed s = subscribe s.services_changed s

unfoldable pub rssi_updates : State → State × ℕ
rssi_updates s = subscribe s.rssi_updates s

unfoldable pub service_discovery : State → State × ℕ
service_discovery s = subscribe s.service_discovery s

unfoldable pub included_service_discovery : ℕ → State → State × ℕ
included_service_discovery service s =
    let (map, trace) = register service s.included_service_discovery s.trace in
    (record s { included_service_discovery = map; trace = trace }, s.trace.next)

unfoldable pub characteristic_discovery : ℕ → State → State × ℕ
characteristic_discovery service s =
    let (map, trace) = register service s.characteristic_discovery s.trace in
    (record s { characteristic_discovery = map; trace = trace }, s.trace.next)

unfoldable pub descriptor_discovery : ℕ → State → State × ℕ
descriptor_discovery characteristic s =
    let (map, trace) = register characteristic s.descriptor_discovery s.trace in
    (record s { descriptor_discovery = map; trace = trace }, s.trace.next)

-- A characteristic has one channel, opened by the first subscriber.
unfoldable pub characteristic_value_updates : ℕ → State → Outcome (State × ℕ)
unfolding broadcast
characteristic_value_updates characteristic s =
    let cell = s.characteristic_value_updates in
    elim (get characteristic cell.value) [
      | some sender ↦ do
        same ← RefCell.update_mut (λ m. m) cell
        done (subscribe sender (record s { characteristic_value_updates = same }))
      | none ↦
          let (sender, trace) = broadcast 16 s.trace in
          do
            grown ← RefCell.update_mut (insert characteristic sender) cell
            done (
                subscribe sender (record s { characteristic_value_updates = grown; trace = trace }))
    ]

unfoldable pub descriptor_value_updates : ℕ → State → State × ℕ
descriptor_value_updates descriptor s =
    let (map, trace) = register descriptor s.descriptor_value_updates s.trace in
    (record s { descriptor_value_updates = map; trace = trace }, s.trace.next)

unfoldable register_notification_update : ℕ → State → State × ℕ
register_notification_update characteristic s =
    let (map, trace) = register characteristic s.notification_updates s.trace in
    (record s { notification_updates = map; trace = trace }, s.trace.next)

unfoldable register_characteristic_value_write : ℕ → State → State × ℕ
register_characteristic_value_write characteristic s =
    let (map, trace) = register characteristic s.characteristic_writes s.trace in
    (record s { characteristic_writes = map; trace = trace }, s.trace.next)

unfoldable register_descriptor_value_write : ℕ → State → State × ℕ
register_descriptor_value_write descriptor s =
    let (map, trace) = register descriptor s.descriptor_writes s.trace in
    (record s { descriptor_writes = map; trace = trace }, s.trace.next)

unfoldable pub ready_to_send : State → State × ℕ
ready_to_send s = subscribe s.ready_to_send_write_without_response s

unfoldable register_l2cap_channel_open : State → State × ℕ
register_l2cap_channel_open s =
    let (cell, trace) = register_cell s.l2cap_channel_opened s.trace in
    (record s { l2cap_channel_opened = cell; trace = trace }, s.trace.next)

-- The public methods. One that fails to get its receiver panics.
module _ (peripheral : ℕ) where
  unfoldable pub discover_services : Option (List BluetoothUuid) → State → State × ℕ
  unfolding service_discovery
  discover_services services s =
      service_discovery (tell (Peripheral.discover_services peripheral services) s)

  unfoldable pub discover_included_services : ℕ → Option (List BluetoothUuid) → State → State × ℕ
  unfolding included_service_discovery
  discover_included_services service services s =
      included_service_discovery service
        (tell (Peripheral.discover_included_services peripheral service services) s)

  unfoldable pub discover_characteristics : ℕ → Option (List BluetoothUuid) → State → State × ℕ
  unfolding characteristic_discovery
  discover_characteristics service characteristics s =
      characteristic_discovery service
        (tell (Peripheral.discover_characteristics peripheral service characteristics) s)

  unfoldable pub discover_descriptors : ℕ → State → State × ℕ
  unfolding descriptor_discovery
  discover_descriptors characteristic s =
      descriptor_discovery characteristic
        (tell (Peripheral.discover_descriptors peripheral characteristic) s)

  unfoldable pub read_characteristic_value : ℕ → State → Outcome (State × ℕ)
  unfolding characteristic_value_updates
  read_characteristic_value characteristic s =
      characteristic_value_updates characteristic
        (tell (Peripheral.read_characteristic_value peripheral characteristic) s)

  unfoldable pub read_descriptor_value : ℕ → State → State × ℕ
  unfolding descriptor_value_updates
  read_descriptor_value descriptor s =
      descriptor_value_updates descriptor
        (tell (Peripheral.read_descriptor_value peripheral descriptor) s)

  unfoldable pub write_characteristic_value :
      ℕ → Bytes → CharacteristicWriteType → State → State × ℕ
  unfolding register_characteristic_value_write
  write_characteristic_value characteristic bytes write_type s =
      register_characteristic_value_write characteristic
        (tell (Peripheral.write_characteristic_value peripheral characteristic bytes write_type) s)

  unfoldable pub write_descriptor_value : ℕ → Bytes → State → State × ℕ
  unfolding register_descriptor_value_write
  write_descriptor_value descriptor bytes s =
      register_descriptor_value_write descriptor
        (tell (Peripheral.write_descriptor_value peripheral descriptor bytes) s)

  unfoldable pub set_notify : ℕ → Bool → State → State × ℕ
  unfolding register_notification_update
  set_notify characteristic notify s =
      register_notification_update characteristic
        (tell (Peripheral.set_notify peripheral characteristic notify) s)

  unfoldable pub read_rssi : State → State × ℕ
  unfolding rssi_updates
  read_rssi s = rssi_updates (tell (Peripheral.read_rssi peripheral) s)

  unfoldable pub open_l2cap_channel : ℕ → State → State × ℕ
  unfolding register_l2cap_channel_open
  open_l2cap_channel psm s =
      register_l2cap_channel_open (tell (Peripheral.open_l2cap_channel peripheral psm) s)

-- Waits only if CoreBluetooth cannot send at once (`can_send_write_without_repsonse`).
unfoldable pub ready_to_send_write_without_response : Bool → State → State × Option ℕ
unfolding ready_to_send
ready_to_send_write_without_response can_send s =
    if can_send then (s, none) else (let (s', sender) = ready_to_send s in (s', some sender))

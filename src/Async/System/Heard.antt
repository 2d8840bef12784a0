-- ===== src/Async/System/Heard.antt =====
-- What the delegates of corebluetooth-async make of the methods that the bridges of corebluetooth
-- call: a callback of PeripheralAsyncDelegate (corebluetooth-async/src/peripheral.rs) or of
-- CentralManagerAsyncDelegate (central_manager.rs), with what it reads at that moment.
use corebluetooth_rs.Prelude.{ℕ, Bool, true, false, Option, none, some}
use corebluetooth_rs.Prelude.Bytes.{Bytes}
use corebluetooth_rs.Async.Central
use corebluetooth_rs.Async.Central.State.{ManagerState, Link}
use corebluetooth_rs.Async.Peripheral
use corebluetooth_rs.Bluetooth.Bridge.{Told}
use corebluetooth_rs.Bluetooth.CentralBridge

-- What `PeripheralAsyncDelegate` reads while it is called: `peripheral.name()`, the attribute's
-- `value()` and `is_notifying()`, and the receivers of the characteristic's channel.
pub record Reading : Type 0 where
  pub name : Option Bytes
  pub value : Option Bytes
  pub is_notifying : Bool
  pub receiver_count : ℕ

-- The methods of `PeripheralAsyncDelegate`, by those of `PeripheralDelegate`.
unfoldable pub heard : Reading → Told → Peripheral.Run.Callback
heard reading Told.did_update_name = Peripheral.Run.Callback.did_update_name reading.name
heard reading (Told.did_modify_services l) = Peripheral.Run.Callback.did_modify_services l
heard reading (Told.did_read_rssi r) = Peripheral.Run.Callback.did_read_rssi r
heard reading (Told.did_discover_services r) = Peripheral.Run.Callback.did_discover_services r
heard reading (Told.did_discover_included_services k r) =
    Peripheral.Run.Callback.did_discover_included_services k r
heard reading (Told.did_discover_characteristics k r) =
    Peripheral.Run.Callback.did_discover_characteristics k r
heard reading (Told.did_update_value_for_characteristic k r) =
    Peripheral.Run.Callback.did_update_value_for_characteristic k r reading.value
      reading.receiver_count
heard reading (Told.did_write_value_for_characteristic k r) =
    Peripheral.Run.Callback.did_write_value_for_characteristic k r
heard reading (Told.did_update_notification_state k r) =
    Peripheral.Run.Callback.did_update_notification_state k r reading.is_notifying
heard reading (Told.did_discover_descriptors k r) =
    Peripheral.Run.Callback.did_discover_descriptors k r
heard reading (Told.did_update_value_for_descriptor k r) =
    Peripheral.Run.Callback.did_update_value_for_descriptor k r reading.value
heard reading (Told.did_write_value_for_descriptor k r) =
    Peripheral.Run.Callback.did_write_value_for_descriptor k r
heard reading Told.is_ready_to_send_write_without_response =
    Peripheral.Run.Callback.is_ready_to_send_write_without_response
heard reading (Told.did_open_l2cap_channel r) = Peripheral.Run.Callback.did_open_l2cap_channel r

-- What `CentralManagerAsyncDelegate` reads: `central.state()`, and whether the receiver of a scan
-- is alive when it sends to it.
pub record ManagerReading : Type 0 where
  pub state : ManagerState
  pub receiver_alive : Bool

abbrev pub link_of : Bool → Link
link_of true = Link.peer_connected
link_of false = Link.peer_disconnected

-- The methods of `CentralManagerAsyncDelegate`, by those of `CentralManagerDelegate`; it leaves
-- `will_restore_state` as the trait has it, empty.
unfoldable pub manager_heard : ManagerReading → CentralBridge.Told → Option Central.Run.Callback
manager_heard reading CentralBridge.Told.did_update_state =
    some (Central.Run.Callback.did_update_state reading.state)
manager_heard reading CentralBridge.Told.will_restore_state = none
manager_heard reading (CentralBridge.Told.did_discover wrapped advertisement_data rssi) = some (
    Central.Run.Callback.did_discover wrapped.peripheral advertisement_data rssi
      reading.receiver_alive)
manager_heard reading (CentralBridge.Told.did_connect wrapped) =
    some (Central.Run.Callback.did_connect wrapped.peripheral)
manager_heard reading (CentralBridge.Told.did_fail_to_connect wrapped error) =
    some (Central.Run.Callback.did_fail_to_connect wrapped.peripheral error)
manager_heard reading (CentralBridge.Told.did_disconnect wrapped timestamp again error) =
    some (Central.Run.Callback.did_disconnect wrapped.peripheral timestamp again error)
manager_heard reading (CentralBridge.Told.on_connection_event event wrapped) =
    some (Central.Run.Callback.on_connection_event (link_of event) wrapped.peripheral)
manager_heard reading (CentralBridge.Told.did_update_ancs_authorization wrapped) =
    some (Central.Run.Callback.did_update_ancs_authorization wrapped.peripheral)

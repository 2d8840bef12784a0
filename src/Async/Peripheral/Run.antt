-- ===== src/Async/Peripheral/Run.antt =====
-- The callbacks and the requests of corebluetooth-async/src/peripheral.rs in any order: all of
-- them run on one serial dispatch queue, so a history is a list.
use corebluetooth_rs.Prelude.{ℕ, Bool, Option, List, [], ◌∷◌, Outcome, done, ◌>>=◌}
use corebluetooth_rs.Prelude.Bytes.{Bytes}
use corebluetooth_rs.Bluetooth.Btuuid.{BluetoothUuid}
use corebluetooth_rs.Bluetooth.Peripheral.{CharacteristicWriteType}
use corebluetooth_rs.Async.Peripheral.Callbacks
use corebluetooth_rs.Async.Peripheral.Requests
use corebluetooth_rs.Async.Peripheral.State.{State, CbResult}

pub data Callback : Type 0 where
  did_update_name : Option Bytes → Callback
  did_modify_services : List ℕ → Callback
  did_read_rssi : CbResult ℕ → Callback
  did_discover_services : CbResult (Unit {0}) → Callback
  did_discover_included_services : ℕ → CbResult (Unit {0}) → Callback
  did_discover_characteristics : ℕ → CbResult (Unit {0}) → Callback
  did_update_value_for_characteristic : ℕ → CbResult (Unit {0}) → Option Bytes → ℕ → Callback
  did_write_value_for_characteristic : ℕ → CbResult (Unit {0}) → Callback
  did_update_notification_state : ℕ → CbResult (Unit {0}) → Bool → Callback
  did_discover_descriptors : ℕ → CbResult (Unit {0}) → Callback
  did_update_value_for_descriptor : ℕ → CbResult (Unit {0}) → Option Bytes → Callback
  did_write_value_for_descriptor : ℕ → CbResult (Unit {0}) → Callback
  is_ready_to_send_write_without_response : Callback
  did_open_l2cap_channel : CbResult (ℕ × ℕ) → Callback

pub data Request : Type 0 where
  name_changed services_changed : Request
  discover_services : Option (List BluetoothUuid) → Request
  discover_included_services : ℕ → Option (List BluetoothUuid) → Request
  discover_characteristics : ℕ → Option (List BluetoothUuid) → Request
  discover_descriptors : ℕ → Request
  read_characteristic_value : ℕ → Request
  characteristic_value_updates : ℕ → Request
  read_descriptor_value : ℕ → Request
  write_characteristic_value : ℕ → Bytes → CharacteristicWriteType → Request
  write_descriptor_value : ℕ → Bytes → Request
  set_notify : ℕ → Bool → Request
  ready_to_send_write_without_response : Bool → Request
  read_rssi : Request
  open_l2cap_channel : ℕ → Request

unfoldable pub call : Callback → State → Outcome State
call (Callback.did_update_name name) s = done (Callbacks.did_update_name name s)
call (Callback.did_modify_services l) s = done (Callbacks.did_modify_services l s)
call (Callback.did_read_rssi r) s = done (Callbacks.did_read_rssi r s)
call (Callback.did_discover_services r) s = done (Callbacks.did_discover_services r s)
call (Callback.did_discover_included_services k r) s =
    done (Callbacks.did_discover_included_services k r s)
call (Callback.did_discover_characteristics k r) s =
    done (Callbacks.did_discover_characteristics k r s)
call (Callback.did_update_value_for_characteristic k r v n) s =
    Callbacks.did_update_value_for_characteristic k r v n s
call (Callback.did_write_value_for_characteristic k r) s =
    done (Callbacks.did_write_value_for_characteristic k r s)
call (Callback.did_update_notification_state k r b) s =
    done (Callbacks.did_update_notification_state_for_characteristic k r b s)
call (Callback.did_discover_descriptors k r) s =
    done (Callbacks.did_discover_descriptors_for_characteristic k r s)
call (Callback.did_update_value_for_descriptor k r v) s =
    Callbacks.did_update_value_for_descriptor k r v s
call (Callback.did_write_value_for_descriptor k r) s =
    done (Callbacks.did_write_value_for_descriptor k r s)
call Callback.is_ready_to_send_write_without_response s =
    done (Callbacks.is_ready_to_send_write_without_response s)
call (Callback.did_open_l2cap_channel r) s = done (Callbacks.did_open_l2cap_channel r s)

module _ (peripheral : ℕ) where
  unfoldable pub request : Request → State → Outcome State
  request Request.name_changed s = done (Requests.name_updates s).0
  request Request.services_changed s = done (Requests.services_changed s).0
  request (Request.discover_services o) s = done (Requests.discover_services peripheral o s).0
  request (Request.discover_included_services k o) s =
      done (Requests.discover_included_services peripheral k o s).0
  request (Request.discover_characteristics k o) s =
      done (Requests.discover_characteristics peripheral k o s).0
  request (Request.discover_descriptors k) s = done (Requests.discover_descriptors peripheral k s).0
  request (Request.read_characteristic_value k) s = do
    (s', _) ← Requests.read_characteristic_value peripheral k s
    done s'
  request (Request.characteristic_value_updates k) s = do
    (s', _) ← Requests.characteristic_value_updates k s
    done s'
  request (Request.read_descriptor_value k) s =
      done (Requests.read_descriptor_value peripheral k s).0
  request (Request.write_characteristic_value k b t) s =
      done (Requests.write_characteristic_value peripheral k b t s).0
  request (Request.write_descriptor_value k b) s =
      done (Requests.write_descriptor_value peripheral k b s).0
  request (Request.set_notify k b) s = done (Requests.set_notify peripheral k b s).0
  request (Request.ready_to_send_write_without_response b) s =
      done (Requests.ready_to_send_write_without_response b s).0
  request Request.read_rssi s = done (Requests.read_rssi peripheral s).0
  request (Request.open_l2cap_channel psm) s = done (Requests.open_l2cap_channel peripheral psm s).0

pub data Input : Type 0 where
  callback : Callback → Input
  ask : Request → Input

unfoldable pub step : ℕ → Input → State → Outcome State
step peripheral (callback c) s = call c s
step peripheral (ask r) s = request peripheral r s

-- The first input of the list comes first.
unfoldable pub run : ℕ → List Input → State → Outcome State
run peripheral [] s = done s
run peripheral (input ∷ inputs) s = step peripheral input s >>= run peripheral inputs

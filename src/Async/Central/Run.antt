-- ===== src/Async/Central/Run.antt =====
-- The callbacks of the central manager's delegate and the calls of `CentralManagerAsync`
-- (corebluetooth-async/src/central_manager.rs) in any order, on one serial dispatch queue.
use corebluetooth_rs.Prelude.{ℕ, Bool, Option, List, [], ◌∷◌, Outcome, done, ◌>>=◌}
use corebluetooth_rs.Async.Central.State.{State, ManagerState, PeripheralState, Link}
use corebluetooth_rs.Async.Central.Delegate
use corebluetooth_rs.Async.Central.Connect
use corebluetooth_rs.Bluetooth.Advertisement.{AdvertisementData}
use corebluetooth_rs.Bluetooth.Btuuid.{BluetoothUuid}
use corebluetooth_rs.Bluetooth.Options.{ConnectPeripheralOptions}
use corebluetooth_rs.Error.Sync

pub data Callback : Type 0 where
  did_update_state : ManagerState → Callback
  did_discover : ℕ → AdvertisementData → ℕ → Bool → Callback
  did_connect : ℕ → Callback
  did_fail_to_connect : ℕ → Sync.Error → Callback
  did_disconnect : ℕ → Option ℕ → Bool → Option Sync.Error → Callback
  on_connection_event : Link → ℕ → Callback
  did_update_ancs_authorization : ℕ → Callback

pub data Request : Type 0 where
  state_updates disconnections connection_events ancs_authorization_updates : Request
  scan : Bool → Option (List BluetoothUuid) → Bool → Option (List BluetoothUuid) → Request
  connect_with_options : ℕ → ConnectPeripheralOptions → Request
  -- The future of a connection that is dropped, or that found its sender dropped.
  give_up : ℕ → PeripheralState → Request
  cancel_peripheral_connection : ℕ → PeripheralState → Request

unfoldable pub call : Callback → State → State
call (Callback.did_update_state state) s = Delegate.did_update_state state s
call (Callback.did_discover p advertisement rssi alive) s =
    Delegate.did_discover p advertisement rssi alive s
call (Callback.did_connect p) s = Delegate.did_connect p s
call (Callback.did_fail_to_connect p error) s = Delegate.did_fail_to_connect p error s
call (Callback.did_disconnect p time again error) s = Delegate.did_disconnect p time again error s
call (Callback.on_connection_event event p) s = Delegate.on_connection_event event p s
call (Callback.did_update_ancs_authorization p) s = Delegate.did_update_ancs_authorization p s

unfoldable pub request : Request → State → Outcome State
request Request.state_updates s = done (Delegate.state_updated s).0
request Request.disconnections s = done (Delegate.disconnects s).0
request Request.connection_events s = done (Delegate.connection_events s).0
request Request.ancs_authorization_updates s = done (Delegate.ancs_authorization_updates s).0
request (Request.scan is_scanning services allow_duplicates solicited) s = do
  (s', _) ← Delegate.scan is_scanning services allow_duplicates solicited s
  done s'
request (Request.connect_with_options p options) s =
    done (Connect.connect_with_options p options s).0
request (Request.give_up p state) s = done (Connect.drop_guard p state s)
request (Request.cancel_peripheral_connection p state) s =
    done (Connect.cancel_peripheral_connection p state s).0

pub data Input : Type 0 where
  callback : Callback → Input
  ask : Request → Input

unfoldable pub step : Input → State → Outcome State
step (callback c) s = done (call c s)
step (ask r) s = request r s

unfoldable pub run : List Input → State → Outcome State
run [] s = done s
run (input ∷ inputs) s = step input s >>= run inputs

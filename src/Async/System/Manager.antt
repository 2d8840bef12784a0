-- ===== src/Async/System/Manager.antt =====
-- What the manager's delegate (corebluetooth-async/src/central_manager.rs) sees of all that happens
-- to the crates together.
use mathlib.Core.Option
use corebluetooth_rs.Prelude.{ℕ, none, List, [], ◌∷◌, ◌++◌, Outcome, done, panic, false}
use corebluetooth_rs.Async.Central.Run.{Callback, Input, callback, ask}
use corebluetooth_rs.Async.System.Heard.{ManagerReading, link_of}
use corebluetooth_rs.Async.System.Step
use corebluetooth_rs.Async.System.Step.{
  System, Event, hear, numbered, grown, step, run, start, adopt, run_delegate,
}
use corebluetooth_rs.Bluetooth.Advertisement.{AdvertisementData, from_nsdictionary}
use corebluetooth_rs.Bluetooth.Btuuid.{BtuuidCrate}
use corebluetooth_rs.Bluetooth.CentralBridge
use corebluetooth_rs.Error.Codes.{CbError}
use corebluetooth_rs.Error.Sync.{ErrorKind, from_nserror, from_nserror_or_kind}

abbrev pub found_by : ℕ → ℕ → ManagerReading → Outcome AdvertisementData → List Input
found_by p rssi reading (done data_) =
    callback (Callback.did_discover p data_ rssi reading.receiver_alive) ∷ []
found_by p rssi reading panic = []

module _ (btuuid : BtuuidCrate) where
  -- The callback that each method of the manager's bridge comes to.
  unfoldable pub manager_input : Event → List Input
  manager_input (Step.told_manager CentralBridge.Raw.did_update_state reading) =
      callback (Callback.did_update_state reading.state) ∷ []
  manager_input (Step.told_manager CentralBridge.Raw.will_restore_state reading) = []
  manager_input (Step.told_manager (CentralBridge.Raw.did_discover p _ dictionary rssi) reading) =
      found_by p rssi reading (from_nsdictionary btuuid dictionary)
  manager_input (Step.told_manager (CentralBridge.Raw.did_connect p) reading) =
      callback (Callback.did_connect p) ∷ []
  manager_input (Step.told_manager (CentralBridge.Raw.did_fail_to_connect p error) reading) =
      callback (
        Callback.did_fail_to_connect p
          (from_nserror_or_kind error (ErrorKind.bluetooth CbError.connection_failed)))
      ∷ []
  manager_input (Step.told_manager (CentralBridge.Raw.did_disconnect p error) reading) =
      callback (Callback.did_disconnect p none false (Option.map from_nserror error)) ∷ []
  manager_input
        (Step.told_manager (CentralBridge.Raw.did_disconnect_at p time again error) reading) =
      callback (Callback.did_disconnect p time again (Option.map from_nserror error)) ∷ []
  manager_input (Step.told_manager (CentralBridge.Raw.connection_event p event) reading) =
      callback (Callback.on_connection_event (link_of event) p) ∷ []
  manager_input (Step.told_manager (CentralBridge.Raw.did_update_ancs_authorization p) reading) =
      callback (Callback.did_update_ancs_authorization p) ∷ []
  manager_input (Step.ask_manager request) = ask request ∷ []
  manager_input _ = []

  unfoldable pub manager_inputs : List Event → List Input
  manager_inputs [] = []
  manager_inputs (event ∷ events) = manager_input event ++ manager_inputs events

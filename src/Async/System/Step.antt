-- ===== src/Async/System/Step.antt =====
-- The state of the two crates together and its steps: what CoreBluetooth tells the bridges of
-- corebluetooth/src/peripheral.rs and central_manager.rs, and what the program asks of
-- corebluetooth-async/src/peripheral.rs and central_manager.rs.
use corebluetooth_rs.Prelude.{
  ℕ, ◌+◌, Option, none, some, List, [], ◌∷◌, Outcome, done, ◌>>=◌, unwrap,
}
use corebluetooth_rs.Prelude.HashMap.{HashMap, get, insert}
use corebluetooth_rs.Async.Central
use corebluetooth_rs.Async.Peripheral
use corebluetooth_rs.Async.Peripheral.State.{State, default}
use corebluetooth_rs.Async.System.Heard.{Reading, ManagerReading, heard, manager_heard}
use corebluetooth_rs.Bluetooth.Bridge
use corebluetooth_rs.Bluetooth.Bridge.{Delegates, bridge_of}
use corebluetooth_rs.Bluetooth.Btuuid.{BtuuidCrate}
use corebluetooth_rs.Bluetooth.CentralBridge

-- A bridge owns its `PeripheralAsyncDelegate`: `delegates` maps the number of a bridge to the
-- state of the delegate in it.
pub record System : Type 0 where
  pub bridges : Delegates
  pub delegates : HashMap State
  pub next_bridge : ℕ
  pub manager : Central.State.State

unfoldable pub start : System
start = record { bridges = []; delegates = []; next_bridge = 0; manager = Central.State.new }

-- `new_peripheral_delegate` is called by `Peripheral::init` if there is no bridge yet.
abbrev pub with_delegate : Option ℕ → System → System
with_delegate (some bridge) sys = sys
with_delegate none sys = record sys {
  delegates = insert sys.next_bridge default sys.delegates;
  next_bridge = sys.next_bridge + 1;
}

-- `Peripheral::init` on a peripheral that CoreBluetooth discovered or retrieved.
unfoldable pub adopt : ℕ → System → System
unfolding Bridge.init
adopt peripheral sys = record (with_delegate (bridge_of peripheral sys.bridges) sys) {
  bridges = (Bridge.init peripheral sys.next_bridge sys.bridges).0;
}

abbrev pub hear : Option Central.Run.Callback → Central.State.State → Central.State.State
hear none manager = manager
hear (some c) manager = Central.Run.call c manager

-- The state of the delegate in a bridge.
unfoldable pub run_delegate : ℕ → (State → Outcome State) → System → Outcome System
run_delegate bridge f sys = do
  s ← unwrap (get bridge sys.delegates)
  s' ← f s
  done (record sys { delegates = insert bridge s' sys.delegates })

pub data Event : Type 0 where
  -- CoreBluetooth calls the bridge of the manager, or that of a peripheral
  told_manager : CentralBridge.Raw → ManagerReading → Event
  told : ℕ → Bridge.Raw → Reading → Event
  -- the program gets a peripheral from `retrieve_peripherals`
  retrieved : ℕ → Event
  -- the program calls `CentralManagerAsync` or `PeripheralAsync`
  ask_manager : Central.Run.Request → Event
  ask : ℕ → Peripheral.Run.Request → Event

-- A bridge that a discovery makes has the next number.
abbrev pub numbered : ℕ → CentralBridge.Raw → CentralBridge.Raw
numbered fresh (CentralBridge.Raw.did_discover p _ dictionary rssi) =
    CentralBridge.Raw.did_discover p fresh dictionary rssi
numbered fresh raw = raw

abbrev pub grown : CentralBridge.Raw → System → System
grown (CentralBridge.Raw.did_discover p _ dictionary rssi) sys =
    with_delegate (bridge_of p sys.bridges) sys
grown raw sys = sys

module _ (btuuid : BtuuidCrate) where
  unfoldable pub step : Event → System → Outcome System
  unfolding Bridge.new Bridge.bridged CentralBridge.bridged adopt run_delegate
  step (told_manager raw reading) sys = do
    (bridges, message) ← CentralBridge.bridged btuuid (numbered sys.next_bridge raw) sys.bridges
    done (record (grown raw sys) {
      bridges = bridges;
      manager = hear (manager_heard reading message) sys.manager;
    })
  step (told p raw reading) sys = do
    (wrapped, message) ← Bridge.bridged p raw sys.bridges
    run_delegate wrapped.delegate (Peripheral.Run.call (heard reading message)) sys
  step (retrieved p) sys = done (adopt p sys)
  step (ask_manager request) sys = do
    manager ← Central.Run.request request sys.manager
    done (record sys { manager = manager })
  step (ask p request) sys = do
    wrapped ← Bridge.new p sys.bridges
    run_delegate wrapped.delegate (Peripheral.Run.request p request) sys

  unfoldable pub run : List Event → System → Outcome System
  run [] sys = done sys
  run (event ∷ events) sys = step event sys >>= run events

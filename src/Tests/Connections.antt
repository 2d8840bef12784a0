-- ===== src/Tests/Connections.antt =====
-- The theorem on connections through both crates at a concrete history of two peripherals.
use corebluetooth_rs.Prelude.{
  ℕ, ◌≡◌, refl, List, [], ◌∷◌, ◌++◌, true, none, some, Outcome, done, panic, Result, ok, err, arith,
}
use corebluetooth_rs.Prelude.HashMap.{get, insert}
use corebluetooth_rs.Async.Central.Connect
use corebluetooth_rs.Async.Central.Delegate
use corebluetooth_rs.Async.Central.Run.{Request, request, call}
use corebluetooth_rs.Async.Central.State.{Event, ManagerState, PeripheralState, new}
use corebluetooth_rs.Async.Crate.{OneshotCrate, Canceled, Poll, pending, ready, first_use}
use corebluetooth_rs.Async.Oneshot.{register}
use corebluetooth_rs.Async.System.Connections.{Attempted, Ends, connection_reported}
use corebluetooth_rs.Async.System.Heard.{ManagerReading}
use corebluetooth_rs.Async.System.Manager.{manager_inputs, manager_input}
use corebluetooth_rs.Async.System.Step
use corebluetooth_rs.Async.System.Step.{System, start, run, step, adopt}
use corebluetooth_rs.Async.Trace.{Call}
use corebluetooth_rs.Bluetooth.Bridge
use corebluetooth_rs.Bluetooth.CentralBridge
use corebluetooth_rs.Bluetooth.Options.{default_options}
use corebluetooth_rs.Error.Async.{from_error}
use corebluetooth_rs.Error.Codes.{CbError}
use corebluetooth_rs.Error.Sync.{ErrorKind, from_kind}
use corebluetooth_rs.Tests.Crates.{btuuid_crate}

abbrev powered_on : ManagerReading
powered_on = record { state = ManagerState.powered_on; receiver_alive = true }

-- Two peripherals are retrieved and connected to, and the second connects first.
abbrev before : List Step.Event
before =
    Step.retrieved 1
    ∷ Step.retrieved 2
    ∷ Step.ask_manager (Request.connect_with_options 2 default_options)
    ∷ []

abbrev after : List Step.Event
after = Step.told_manager (CentralBridge.Raw.did_connect 2) powered_on ∷ []

abbrev connection : Step.Event
connection = Step.ask_manager (Request.connect_with_options 1 default_options)

abbrev or_start : Outcome System → System
or_start (done sys) = sys
or_start panic = start

abbrev asked_in : System
asked_in = or_start (run btuuid_crate before start)

abbrev now : System
now = or_start (run btuuid_crate (before ++ (connection ∷ after)) start)

first-Attempted : Attempted btuuid_crate 1 1 now
unfolding run step start adopt get insert Bridge.new Bridge.init CentralBridge.bridged request call
    manager_inputs manager_input Connect.connect_with_options Delegate.register_connecting new
    register
first-Attempted = record {
  before = before;
  asked_in = asked_in;
  reached = refl;
  options = default_options;
  sender = refl;
  after = after;
  alone = ((λ e. absurd (omega (arith, e))), tt);
  now = refl;
}

first_known : Bridge.bridge_of 1 now.bridges ≡ some 0
unfolding run step start adopt get insert Bridge.new Bridge.init CentralBridge.bridged request call
first_known = refl

abbrev poll : List (Call Event) → ℕ → Poll (Result Event Canceled)
poll = OneshotCrate.poll (first_use Event)

abbrev silent : CentralBridge.Raw
silent = CentralBridge.Raw.did_fail_to_connect 1 none

connection_reported_example :
    (Connect.resume 1 PeripheralState.connecting (poll now.manager.trace.calls 1) now.manager
      ≡ (now.manager, pending))
    × (t : System) × (step btuuid_crate (Step.told_manager silent powered_on) now ≡ done t)
    × (Connect.resume 1 PeripheralState.connecting (poll t.manager.trace.calls 1) t.manager ≡ (
      t.manager,
      ready (
          ok (
            Event.connect_result
              (err (from_error (from_kind (ErrorKind.bluetooth CbError.connection_failed)))))),
    ))
connection_reported_example =
    connection_reported (first_use Event) btuuid_crate 1 1 0 now first-Attempted first_known silent
      (err (from_error (from_kind (ErrorKind.bluetooth CbError.connection_failed))))
      (Ends.failed_silently 1) powered_on PeripheralState.connecting

-- ===== src/Tests/System.antt =====
-- The theorems on the two crates together at a concrete history of two peripherals.
use corebluetooth_rs.Prelude.{
  ℕ, ◌≡◌, refl, List, [], ◌∷◌, ◌++◌, false, none, some, Outcome, done, panic, ◌↔◌, ◌⊎◌, Result, ok,
  err,
}
use corebluetooth_rs.Async.Central
use corebluetooth_rs.Async.Crate.{OneshotCrate, Canceled, Poll, pending, ready, first_use}
use corebluetooth_rs.Async.Oneshot.{register, resolve}
use corebluetooth_rs.Async.Peripheral.Callbacks
use corebluetooth_rs.Async.Peripheral.Mailbox.{empty, perform_all}
use corebluetooth_rs.Async.Peripheral.Observed.{observe, ends_of}
use corebluetooth_rs.Async.Peripheral.Refines.{run-perform_all}
use corebluetooth_rs.Async.Peripheral.Requests
use corebluetooth_rs.Async.Peripheral.Run
use corebluetooth_rs.Async.Peripheral.Run.{Callback, Request, Input, callback, ask}
use corebluetooth_rs.Async.Peripheral.Slots.{Slot, Asks}
use corebluetooth_rs.Async.Peripheral.State.{State, Update, default}
use corebluetooth_rs.Async.System.Adopted.{state_of}
use corebluetooth_rs.Async.System.Awaiting.{Asked}
use corebluetooth_rs.Async.System.Failures.{Fails, error_reported}
use corebluetooth_rs.Async.System.Follows.{run-state_of}
use corebluetooth_rs.Async.System.Heard.{heard, Reading, ManagerReading}
use corebluetooth_rs.Async.System.Managed.{run-manager}
use corebluetooth_rs.Async.System.Manager.{manager_inputs}
use corebluetooth_rs.Async.System.Successes.{Succeeds, success_reported}
use corebluetooth_rs.Async.System.Panics.{IsFatalTo, told-eq-panic_iff}
use corebluetooth_rs.Async.System.Split.{inputs_of, input_of}
use corebluetooth_rs.Async.System.Step
use corebluetooth_rs.Async.System.Step.{System, Event, start, run, step, adopt, run_delegate}
use corebluetooth_rs.Async.Trace.{Call}
use corebluetooth_rs.Bluetooth.Bridge
use corebluetooth_rs.Bluetooth.Bridge.{bridge_of}
use corebluetooth_rs.Bluetooth.Bridged.{IsBroken}
use corebluetooth_rs.Bluetooth.CentralBridge
use corebluetooth_rs.Error.Async.{from_error}
use corebluetooth_rs.Error.Codes.{NsError, cb_error_domain}
use corebluetooth_rs.Error.Sync.{from_nserror}
use corebluetooth_rs.Prelude.HashMap.{get, insert}
use corebluetooth_rs.Tests.Crates.{btuuid_crate}

abbrev quiet : Reading
quiet = record { name = none; value = none; is_notifying = false; receiver_count = 0 }

abbrev powered_on : ManagerReading
powered_on = record { state = Central.State.ManagerState.powered_on; receiver_alive = false }

-- Two peripherals are retrieved, descriptor 7 of the first is being read, and then the name of the
-- second changes and the first connects.
abbrev before : List Event
before = Step.retrieved 1 ∷ Step.retrieved 2 ∷ []

abbrev after : List Event
after =
    Step.told 2 Bridge.Raw.did_update_name quiet
    ∷ Step.told_manager (CentralBridge.Raw.did_connect 1) powered_on
    ∷ []

abbrev read : Request
read = Request.read_descriptor_value 7

abbrev events : List Event
events = before ++ (Step.ask 1 read ∷ after)

abbrev or_start : Outcome System → System
or_start (done sys) = sys
or_start panic = start

abbrev asked_in : System
asked_in = or_start (run btuuid_crate before start)

abbrev now : System
now = or_start (run btuuid_crate events start)

events-run : run btuuid_crate events start ≡ done now
unfolding run step start adopt run_delegate get insert Bridge.bridged Bridge.new Bridge.init
    CentralBridge.bridged Run.request Run.call heard
events-run = refl

run-state_of_example : Run.run 2 (inputs_of 2 events) default ≡ done (state_of 2 now)
run-state_of_example = run-state_of btuuid_crate 2 events events-run

run-manager_example :
    Central.Run.run (manager_inputs btuuid_crate events) Central.State.new ≡ done now.manager
run-manager_example = run-manager btuuid_crate events events-run

read-Asked : Asked btuuid_crate 1 Slot.descriptor_value 7 0 now
unfolding run step start adopt run_delegate get insert Bridge.bridged Bridge.new Bridge.init
    CentralBridge.bridged state_of default inputs_of input_of Run.request Run.call
read-Asked = record {
  before = before;
  asked_in = asked_in;
  reached = refl;
  request_made = read;
  asks = Asks.descriptor_value 7;
  sender = refl;
  after = after;
  alone = tt;
  now = refl;
}

abbrev lost : NsError
lost = record { domain = cb_error_domain; code = 7 }

abbrev failed_read : Bridge.Raw
failed_read = Bridge.Raw.did_update_value_for_descriptor 7 (some lost)

abbrev poll : List (Call Update) → ℕ → Poll (Result Update Canceled)
poll = OneshotCrate.poll (first_use Update)

error_reported_example :
    (poll (state_of 1 now).trace.calls 0 ≡ pending)
    × (t : System) × (step btuuid_crate (Step.told 1 failed_read quiet) now ≡ done t)
    × (poll (state_of 1 t).trace.calls 0
        ≡ ready (ok (Update.bytes (err (from_error (from_nserror lost))))))
error_reported_example =
    error_reported (first_use Update) btuuid_crate 1 Slot.descriptor_value 7 0 now read-Asked
      failed_read lost (Fails.descriptor_value 7 lost) quiet

abbrev with_value : Reading
with_value = record quiet { value = some (5 ∷ 6 ∷ []) }

abbrev good_read : Bridge.Raw
good_read = Bridge.Raw.did_update_value_for_descriptor 7 none

success_reported_example :
    (poll (state_of 1 now).trace.calls 0 ≡ pending)
    × (t : System) × (step btuuid_crate (Step.told 1 good_read with_value) now ≡ done t)
    × (poll (state_of 1 t).trace.calls 0 ≡ ready (ok (Update.bytes (ok (5 ∷ 6 ∷ [])))))
success_reported_example =
    success_reported (first_use Update) btuuid_crate 1 Slot.descriptor_value 7 0 now read-Asked
      good_read with_value (Update.bytes (ok (5 ∷ 6 ∷ [])))
      (Succeeds.descriptor_value 7 with_value (5 ∷ 6 ∷ []) refl)

abbrev no_value : Bridge.Raw
no_value = Bridge.Raw.did_update_value_for_descriptor 7 none

told_example :
    (step btuuid_crate (Step.told 1 no_value quiet) now ≡ panic)
    ↔ ((bridge_of 1 now.bridges ≡ none) ⊎ (IsBroken no_value ⊎ IsFatalTo 1 no_value quiet now))
told_example = told-eq-panic_iff btuuid_crate events events-run 1 no_value quiet

-- The peripheral 1 reads descriptor 7 twice and then gets its value.
abbrev inputs : List Input
inputs =
    ask read
    ∷ ask read
    ∷ callback (Callback.did_update_value_for_descriptor 7 (ok tt) (some (5 ∷ [])))
    ∷ []

abbrev or_default : Outcome State → State
or_default (done s) = s
or_default panic = default

abbrev answered : State
answered = or_default (Run.run 1 inputs default)

answered-run : Run.run 1 inputs default ≡ done answered
unfolding Run.run Run.step Run.request Run.call Requests.read_descriptor_value default get insert
    Callbacks.did_update_value_for_descriptor register
answered-run = refl

run-perform_all_example : observe answered ≡ perform_all inputs empty
run-perform_all_example = run-perform_all 1 inputs answered-run

ended_twice : (observe answered).ended ≡ (1, some (Update.bytes (ok (5 ∷ [])))) ∷ (0, none) ∷ []
unfolding Run.run Run.step Run.request Run.call Requests.read_descriptor_value default get insert
    observe Callbacks.did_update_value_for_descriptor ends_of register resolve
ended_twice = refl

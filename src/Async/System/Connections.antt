-- ===== src/Async/System/Connections.antt =====
-- From end to end: the end of a connection attempt goes through the bridge
-- (corebluetooth/src/central_manager.rs) and the delegate
-- (corebluetooth-async/src/central_manager.rs) to the future of `connect_with_options`.
use corebluetooth_rs.Prelude.{
  ℕ, ◌≡◌, refl, none, some, List, ◌∷◌, done, Result, ok, err, Ensures-done,
}
use corebluetooth_rs.Async.Central.Connect
use corebluetooth_rs.Async.Central.Connecting.{AllElsewhere, Connecting, answer, connect_answered}
use corebluetooth_rs.Async.Central.Run
use corebluetooth_rs.Async.Central.Run.{Callback, Request}
use corebluetooth_rs.Async.Central.State.{Event, PeripheralState}
use corebluetooth_rs.Async.Crate.{OneshotCrate, pending, ready}
use corebluetooth_rs.Async.System.Heard.{ManagerReading, manager_heard}
use corebluetooth_rs.Async.System.Managed.{run-manager, run_from-Follows}
use corebluetooth_rs.Async.System.Manager.{manager_input, manager_inputs}
use corebluetooth_rs.Async.System.Step
use corebluetooth_rs.Async.System.Step.{System, run, start, step}
use corebluetooth_rs.Bluetooth.Bridge
use corebluetooth_rs.Bluetooth.Bridge.{bridge_of}
use corebluetooth_rs.Bluetooth.Btuuid.{BtuuidCrate}
use corebluetooth_rs.Bluetooth.CentralBridge
use corebluetooth_rs.Bluetooth.Options.{ConnectPeripheralOptions}
use corebluetooth_rs.Error.Async.{Error, from_error}
use corebluetooth_rs.Error.Codes.{NsError, CbError}
use corebluetooth_rs.Error.Sync.{ErrorKind, from_kind, from_nserror, from_nserror_or_kind}

-- What CoreBluetooth tells about the end of the connecting of a peripheral means as a result: an
-- error is kept as it is, and without one the kind of a failed connection stands for it.
pub data Ends : CentralBridge.Raw → ℕ → Result (Unit {0}) Error → Type 0 where
  connected : (p : ℕ) → Ends (CentralBridge.Raw.did_connect p) p (ok tt)
  failed :
      (p : ℕ) (e : NsError)
      → Ends
          (CentralBridge.Raw.did_fail_to_connect p (some e))
          p
          (err (from_error (from_nserror e)))
  failed_silently :
      (p : ℕ)
      → Ends
          (CentralBridge.Raw.did_fail_to_connect p none)
          p
          (err (from_error (from_kind (ErrorKind.bluetooth CbError.connection_failed))))

-- The callback of the manager's delegate that comes of it.
ended :
    {raw : CentralBridge.Raw} {p b : ℕ} {r : Result (Unit {0}) Error} (btuuid : BtuuidCrate)
    (reading : ManagerReading) (sys : System)
    → Ends raw p r
    → bridge_of p sys.bridges ≡ some b
    → (c : Callback) × (answer c ≡ some (p, r))
      × (step btuuid (Step.told_manager raw reading) sys
          ≡ done (record sys { manager = Run.call c sys.manager }))
unfolding step CentralBridge.bridged Bridge.new manager_heard from_nserror_or_kind from_nserror
    from_kind
ended btuuid reading sys (Ends.connected p) e = (Callback.did_connect p, refl, rw e refl)
ended btuuid reading sys (Ends.failed p x) e =
    (Callback.did_fail_to_connect p (from_nserror x), refl, rw e refl)
ended btuuid reading sys (Ends.failed_silently p) e = (
  Callback.did_fail_to_connect p (from_kind (ErrorKind.bluetooth CbError.connection_failed)),
  refl,
  rw e refl,
)

-- The program connects a peripheral in a history of both crates, and after it nothing connects the
-- peripheral again or is about the end of its connecting.
pub record Attempted (btuuid : BtuuidCrate) (p id : ℕ) (sys : System) : Type 0 where
  pub before : List Step.Event
  pub asked_in : System
  pub reached : run btuuid before start ≡ done asked_in
  pub options : ConnectPeripheralOptions
  pub sender : id ≡ (Connect.connect_with_options p options asked_in.manager).1
  pub after : List Step.Event
  pub alone : AllElsewhere p (manager_inputs btuuid after)
  pub now :
      run btuuid (Step.ask_manager (Request.connect_with_options p options) ∷ after) asked_in
      ≡ done sys

Attempted-Connecting :
    {btuuid : BtuuidCrate} {p id : ℕ} {sys : System}
    → Attempted btuuid p id sys
    → Connecting p id sys.manager
unfolding Run.run Run.step Run.request manager_inputs manager_input
Attempted-Connecting {btuuid} {p} {id} {sys} a = record {
  before = manager_inputs btuuid a.before;
  asked_in = a.asked_in.manager;
  reached = run-manager btuuid a.before a.reached;
  options = a.options;
  sender = a.sender;
  after = manager_inputs btuuid a.after;
  alone = a.alone;
  now =
      Ensures-done (λ t. Run.run (manager_inputs btuuid all) a.asked_in.manager ≡ done t.manager)
        (run btuuid all a.asked_in) (run_from-Follows btuuid all a.asked_in) a.now;
}
  where
    all : List Step.Event
    all = Step.ask_manager (Request.connect_with_options p a.options) ∷ a.after

-- The future of a connection is pending while nothing that happens to the crates connects its
-- peripheral again or is about the end of its connecting. When CoreBluetooth then reports the
-- connection, or its failure, of the peripheral, which has a delegate, nothing panics, and the
-- future resolves to that result: to an error that holds CoreBluetooth's own, or to one of the kind
-- `ConnectionFailed` if CoreBluetooth gives none. Its guard cancels no connection.
pub connection_reported :
    (crate : OneshotCrate Event) (btuuid : BtuuidCrate) (p id b : ℕ) (sys : System)
    → Attempted btuuid p id sys
    → bridge_of p sys.bridges ≡ some b
    → (raw : CentralBridge.Raw) (r : Result (Unit {0}) Error) → Ends raw p r
    → (reading : ManagerReading) (state : PeripheralState)
    → (Connect.resume p state (crate.poll sys.manager.trace.calls id) sys.manager
        ≡ (sys.manager, pending))
      × (t : System) × (step btuuid (Step.told_manager raw reading) sys ≡ done t)
      × (Connect.resume p state (crate.poll t.manager.trace.calls id) t.manager
          ≡ (t.manager, ready (ok (Event.connect_result r))))
connection_reported crate btuuid p id b sys attempted known raw r ends reading state =
    let (c, answers, stepped) = ended btuuid reading sys ends known in
    let (open_before, answered) =
      connect_answered crate p id sys.manager (Attempted-Connecting attempted) c r state answers in
    (open_before, record sys { manager = Run.call c sys.manager }, stepped, answered)

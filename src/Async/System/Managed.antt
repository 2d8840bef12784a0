-- ===== src/Async/System/Managed.antt =====
-- Whatever happens to the crates together, the manager's delegate
-- (corebluetooth-async/src/central_manager.rs) sees its own inputs, and nothing else.
use mathlib.Core.Option
use corebluetooth_rs.Prelude.{
  ℕ, ◌≡◌, refl, sym, ap, ◌∙◌, none, some, List, [], ◌∷◌, ◌++◌, Outcome, done, panic, ◌>>=◌, Ensures,
  Ensures->>=, Ensures-mono, Ensures-done, Option-cases, inl, inr, false, unwrap,
}
use corebluetooth_rs.Prelude.HashMap.{get}
use corebluetooth_rs.Async.Central.Run
use corebluetooth_rs.Async.Central.Run.{Callback, Input, callback, ask}
use corebluetooth_rs.Async.Central.State.{State, new}
use corebluetooth_rs.Async.Peripheral.State.{State as PState}
use corebluetooth_rs.Async.System.Heard.{ManagerReading, link_of, manager_heard}
use corebluetooth_rs.Async.System.Manager.{found_by, manager_input, manager_inputs}
use corebluetooth_rs.Async.System.Step
use corebluetooth_rs.Async.System.Step.{
  System, Event, hear, numbered, grown, step, run, start, adopt, run_delegate,
}
use corebluetooth_rs.Bluetooth.Advertisement.{AdvertisementData, from_nsdictionary}
use corebluetooth_rs.Bluetooth.Bridge
use corebluetooth_rs.Bluetooth.Bridge.{Delegates, bridge_of, Peripheral}
use corebluetooth_rs.Bluetooth.Btuuid.{BtuuidCrate}
use corebluetooth_rs.Bluetooth.CentralBridge
use corebluetooth_rs.Error.Codes.{CbError}
use corebluetooth_rs.Error.Sync.{ErrorKind, from_nserror, from_nserror_or_kind}

module _ (btuuid : BtuuidCrate) where
  abbrev pub Follows : System → List Input → System → Type 0
  Follows sys inputs t = Run.run inputs sys.manager ≡ done t.manager

  -- A method that wraps its peripheral first.
  wrapped :
      (p : ℕ) (reading : ManagerReading) (sys : System) (f : Peripheral → CentralBridge.Told)
      (c : ℕ → Callback)
      → ((w : Peripheral) → manager_heard reading (f w) ≡ some (c w.peripheral))
      → Ensures (Follows sys (callback (c p) ∷ [])) (
          ◌>>=◌ {B = System}
            (◌>>=◌ {B = Delegates × CentralBridge.Told}
              (Bridge.new p sys.bridges)
              (λ w. done (sys.bridges, f w)))
            (λ r. done (record sys {
              bridges = r.0;
              manager = hear (manager_heard reading r.1) sys.manager;
            })))
  unfolding Bridge.new Run.run Run.step
  wrapped p reading sys f c h = elim (Option-cases (bridge_of p sys.bridges)) [
    | inl e ↦ rw e tt
    | inr (b, e) ↦
        rw e
          (ap (λ o. done (hear o sys.manager)) (sym (h (record { peripheral = p; delegate = b }))))
  ]

  discovered :
      (p rssi : ℕ) (reading : ManagerReading) (sys : System) (m : Outcome AdvertisementData)
      → Ensures (Follows sys (found_by p rssi reading m)) (
          ◌>>=◌ {B = System}
            (◌>>=◌ {B = Delegates × CentralBridge.Told} m (λ a. done (
              (Bridge.init p sys.next_bridge sys.bridges).0,
              CentralBridge.Told.did_discover (Bridge.init p sys.next_bridge sys.bridges).1 a rssi,
            )))
            (λ r. done (record (Step.with_delegate (bridge_of p sys.bridges) sys) {
              bridges = r.0;
              manager = hear (manager_heard reading r.1) sys.manager;
            })))
  unfolding Bridge.init Run.run Run.step manager_heard
  discovered p rssi reading sys (done a) = refl
  discovered p rssi reading sys panic = tt

  manager-Follows :
      (raw : CentralBridge.Raw) (reading : ManagerReading) (sys : System)
      → Ensures
          (Follows sys (manager_input btuuid (Step.told_manager raw reading)))
          (step btuuid (Step.told_manager raw reading) sys)
  unfolding step CentralBridge.bridged manager_input manager_heard Run.run Run.step
  manager-Follows CentralBridge.Raw.did_update_state reading sys = refl
  manager-Follows CentralBridge.Raw.will_restore_state reading sys = refl
  manager-Follows (CentralBridge.Raw.did_discover p _ dictionary rssi) reading sys =
      discovered p rssi reading sys (from_nsdictionary btuuid dictionary)
  manager-Follows (CentralBridge.Raw.did_connect p) reading sys =
      wrapped p reading sys _ Callback.did_connect (λ w. refl)
  manager-Follows (CentralBridge.Raw.did_fail_to_connect p error) reading sys =
      wrapped p reading sys _
        (λ k.
          Callback.did_fail_to_connect k
            (from_nserror_or_kind error (ErrorKind.bluetooth CbError.connection_failed)))
        (λ w. refl)
  manager-Follows (CentralBridge.Raw.did_disconnect p error) reading sys =
      wrapped p reading sys _
        (λ k. Callback.did_disconnect k none false (Option.map from_nserror error)) (λ w. refl)
  manager-Follows (CentralBridge.Raw.did_disconnect_at p time again error) reading sys =
      wrapped p reading sys _
        (λ k. Callback.did_disconnect k time again (Option.map from_nserror error)) (λ w. refl)
  manager-Follows (CentralBridge.Raw.connection_event p event) reading sys =
      wrapped p reading sys _ (Callback.on_connection_event (link_of event)) (λ w. refl)
  manager-Follows (CentralBridge.Raw.did_update_ancs_authorization p) reading sys =
      wrapped p reading sys _ Callback.did_update_ancs_authorization (λ w. refl)

  -- The delegates of the peripherals leave that of the manager alone.
  alone :
      {A : Type 0} (sys : System) (m : Outcome A) (f : A → Outcome System)
      → ((a : A) → Ensures (Follows sys []) (f a))
      → Ensures (Follows sys []) (m >>= f)
  alone sys (done a) f h = h a
  alone sys panic f h = tt

  delegate_alone :
      (b : ℕ) (f : PState → Outcome PState) (sys : System)
      → Ensures (Follows sys []) (run_delegate b f sys)
  unfolding run_delegate Run.run
  delegate_alone b f sys =
      alone sys (unwrap (get b sys.delegates)) _ (λ s. alone sys (f s) _ (λ s'. refl))

  step-Follows :
      (event : Event) (sys : System)
      → Ensures (Follows sys (manager_input btuuid event)) (step btuuid event sys)
  unfolding step manager_input Run.run Run.step adopt
  step-Follows (Step.told_manager raw reading) sys = manager-Follows raw reading sys
  step-Follows (Step.told p raw reading) sys =
      alone sys (Bridge.bridged p raw sys.bridges) _ (λ r. delegate_alone _ _ sys)
  step-Follows (Step.retrieved p) sys = elim (Option-cases (bridge_of p sys.bridges)) [
    | inl e ↦ rw e refl
    | inr (b, e) ↦ rw e refl
  ]
  step-Follows (Step.ask_manager request) sys = asked (Run.request request sys.manager) refl
    where
      asked :
          (m : Outcome State)
          → m ≡ Run.request request sys.manager
          → Ensures
              (Follows sys (ask request ∷ []))
              (◌>>=◌ {B = System} m (λ manager. done (record sys { manager = manager })))
      asked (done manager) e = ap (λ m. ◌>>=◌ {B = State} m (Run.run [])) (sym e)
      asked panic e = tt
  step-Follows (Step.ask p request) sys =
      alone sys (Bridge.new p sys.bridges) _ (λ r. delegate_alone _ _ sys)

  run-append :
      (before after : List Input) (s : State)
      → Run.run (before ++ after) s ≡ ◌>>=◌ {B = State} (Run.run before s) (Run.run after)
  unfolding Run.run
  run-append [] after s = refl
  run-append (input ∷ before) after s = go (λ t. run-append before after t) (Run.step input s)
    where
      go :
          ((t : State)
            → Run.run (before ++ after) t ≡ ◌>>=◌ {B = State} (Run.run before t) (Run.run after))
          → (m : Outcome State)
          → ◌>>=◌ {B = State} m (Run.run (before ++ after))
            ≡ ◌>>=◌ {B = State} (◌>>=◌ {B = State} m (Run.run before)) (Run.run after)
      go rest (done t) = rest t
      go rest panic = refl

  pub run_from-Follows :
      (events : List Event) (sys : System)
      → Ensures (Follows sys (manager_inputs btuuid events)) (run btuuid events sys)
  unfolding run manager_inputs Run.run
  run_from-Follows [] sys = refl
  run_from-Follows (event ∷ events) sys =
      Ensures->>= (Follows sys (manager_input btuuid event))
        (Follows sys (manager_inputs btuuid (event ∷ events))) (step btuuid event sys)
        (run btuuid events) (step-Follows event sys)
        (λ t follows.
          Ensures-mono (Follows t (manager_inputs btuuid events)) _ (run btuuid events t)
            (run_from-Follows events t)
            (λ u later.
              run-append (manager_input btuuid event) (manager_inputs btuuid events) sys.manager
              ∙ ap (λ m. ◌>>=◌ {B = State} m (Run.run (manager_inputs btuuid events))) follows
              ∙ later))

-- Whatever CoreBluetooth tells the bridges and the program asks for, in any order, if it does not
-- panic: the delegate of the central manager is in the state that the manager's own callbacks and
-- requests alone lead to from a new one. What happens to the peripherals changes nothing in it.
pub run-manager :
    (btuuid : BtuuidCrate) (events : List Event) {sys : System}
    → run btuuid events start ≡ done sys
    → Run.run (manager_inputs btuuid events) new ≡ done sys.manager
unfolding start
run-manager btuuid events e =
    Ensures-done (Follows btuuid start (manager_inputs btuuid events)) _
      (run_from-Follows btuuid events start) e

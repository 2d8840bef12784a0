-- ===== src/Async/System/Follows.antt =====
-- Whatever happens to the crates together, each peripheral's delegate
-- (corebluetooth-async/src/peripheral.rs) sees the inputs of its own peripheral, and nothing else.
use corebluetooth_rs.Prelude.{
  ℕ, ◌≡◌, refl, sym, ap, ◌∙◌, some, List, [], ◌∷◌, ◌++◌, Outcome, done, panic, ◌>>=◌, Ensures,
  Ensures->>=, Ensures-mono, Ensures-done, Option-cases, inl, inr, ◌==◌, if◌then◌else◌,
}
use corebluetooth_rs.Prelude.HashMap.{get}
use corebluetooth_rs.Async.Central
use corebluetooth_rs.Async.Peripheral.Run
use corebluetooth_rs.Async.Peripheral.Run.{Input, ask}
use corebluetooth_rs.Async.Peripheral.State.{State, default}
use corebluetooth_rs.Async.System.Adopted.{Owns, state_of}
use corebluetooth_rs.Async.System.Heard.{Reading, ManagerReading, heard, manager_heard}
use corebluetooth_rs.Async.System.Split.{
  message, input_of, inputs_of, Follows, unchanged, adopted, delegate-Follows,
}
use corebluetooth_rs.Async.System.Step
use corebluetooth_rs.Async.System.Step.{
  System, Event, hear, numbered, grown, step, run, start, run_delegate,
}
use corebluetooth_rs.Bluetooth.Advertisement.{from_nsdictionary}
use corebluetooth_rs.Bluetooth.Bridge
use corebluetooth_rs.Bluetooth.Bridge.{Delegates, bridge_of, Peripheral, Told, converted}
use corebluetooth_rs.Bluetooth.Btuuid.{BtuuidCrate}
use corebluetooth_rs.Bluetooth.CentralBridge

-- What is left of a method of the manager's bridge once it has made its arguments.
told_quietly :
    {A : Type 0} (reading : ManagerReading) (q : ℕ) (sys : System) (m : Outcome A)
    (f : A → CentralBridge.Told)
    → Owns sys
    → Ensures (Follows q sys []) (
        ◌>>=◌ {B = System}
          (◌>>=◌ {B = Delegates × CentralBridge.Told} m (λ a. done (sys.bridges, f a)))
          (λ r.
            done (record sys {
              bridges = r.0;
              manager = hear (manager_heard reading r.1) sys.manager;
            })))
unfolding state_of
told_quietly reading q sys (done a) f h = unchanged q sys h
told_quietly reading q sys panic f h = tt

discovered_quietly :
    (reading : ManagerReading) (q p : ℕ) (sys : System) {A : Type 0} (m : Outcome A)
    (f : A → CentralBridge.Told)
    → Owns sys
    → Ensures (Follows q sys []) (
        ◌>>=◌ {B = System}
          (◌>>=◌ {B = Delegates × CentralBridge.Told} m
            (λ a. done ((Bridge.init p sys.next_bridge sys.bridges).0, f a)))
          (λ r. done (record (Step.with_delegate (bridge_of p sys.bridges) sys) {
            bridges = r.0;
            manager = hear (manager_heard reading r.1) sys.manager;
          })))
unfolding Step.adopt state_of
discovered_quietly reading q p sys (done a) f h = adopted q p sys h
discovered_quietly reading q p sys panic f h = tt

module _ (btuuid : BtuuidCrate) (q : ℕ) where
  manager-Follows :
      (raw : CentralBridge.Raw) (reading : ManagerReading) (sys : System)
      → Owns sys
      → Ensures (Follows q sys []) (step btuuid (Step.told_manager raw reading) sys)
  unfolding step CentralBridge.bridged state_of
  manager-Follows CentralBridge.Raw.did_update_state reading sys h = unchanged q sys h
  manager-Follows CentralBridge.Raw.will_restore_state reading sys h = unchanged q sys h
  manager-Follows (CentralBridge.Raw.did_discover p _ dictionary rssi) reading sys h =
      discovered_quietly reading q p sys (from_nsdictionary btuuid dictionary) _ h
  manager-Follows (CentralBridge.Raw.did_connect p) reading sys h =
      told_quietly reading q sys (Bridge.new p sys.bridges) _ h
  manager-Follows (CentralBridge.Raw.did_fail_to_connect p error) reading sys h =
      told_quietly reading q sys (Bridge.new p sys.bridges) _ h
  manager-Follows (CentralBridge.Raw.did_disconnect p error) reading sys h =
      told_quietly reading q sys (Bridge.new p sys.bridges) _ h
  manager-Follows (CentralBridge.Raw.did_disconnect_at p time again error) reading sys h =
      told_quietly reading q sys (Bridge.new p sys.bridges) _ h
  manager-Follows (CentralBridge.Raw.connection_event p event) reading sys h =
      told_quietly reading q sys (Bridge.new p sys.bridges) _ h
  manager-Follows (CentralBridge.Raw.did_update_ancs_authorization p) reading sys h =
      told_quietly reading q sys (Bridge.new p sys.bridges) _ h

  -- With no bridge the call panics.
  with_bridge :
      (p : ℕ) (sys : System) (inputs : List Input) (f : Peripheral → Outcome System)
      → ((b : ℕ)
          → bridge_of p sys.bridges ≡ some b
          → Ensures (Follows q sys inputs) (f (record { peripheral = p; delegate = b })))
      → Ensures (Follows q sys inputs) (◌>>=◌ {B = System} (Bridge.new p sys.bridges) f)
  unfolding Bridge.new
  with_bridge p sys inputs f h = elim (Option-cases (bridge_of p sys.bridges)) [
    | inl e ↦ rw e tt
    | inr (b, e) ↦ rw e (h b e)
  ]

  told-Follows :
      (p : ℕ) (raw : Bridge.Raw) (reading : Reading) (sys : System)
      → Owns sys
      → Ensures
          (Follows q sys (input_of q (Step.told p raw reading)))
          (step btuuid (Step.told p raw reading) sys)
  unfolding step Bridge.bridged Bridge.new input_of Run.step
  told-Follows p raw reading sys h = converted_to (converted raw)
    where
      converted_to :
          (m : Outcome Told)
          → Ensures (Follows q sys (if p == q then message m reading else [])) (
              ◌>>=◌ {B = System}
                (◌>>=◌ {B = Peripheral × Told} m (λ told.
                  ◌>>=◌ {B = Peripheral × Told}
                    (Bridge.new p sys.bridges)
                    (λ wrapped. done (wrapped, told))))
                (λ r. run_delegate r.0.delegate (Run.call (heard reading r.1)) sys))
      converted_to panic = tt
      converted_to (done told) = elim (Option-cases (bridge_of p sys.bridges)) [
        | inl e ↦ rw e tt
        | inr (b, e) ↦ rw e (delegate-Follows q p b (Run.callback (heard reading told)) sys h e)
      ]

  step-Follows :
      (event : Event) (sys : System)
      → Owns sys
      → Ensures (Follows q sys (input_of q event)) (step btuuid event sys)
  unfolding step input_of Run.step state_of
  step-Follows (Step.told_manager raw reading) sys h = manager-Follows raw reading sys h
  step-Follows (Step.told p raw reading) sys h = told-Follows p raw reading sys h
  step-Follows (Step.retrieved p) sys h = adopted q p sys h
  step-Follows (Step.ask_manager request) sys h = asked (Central.Run.request request sys.manager)
    where
      asked :
          (m : Outcome Central.State.State)
          → Ensures
              (Follows q sys [])
              (◌>>=◌ {B = System} m (λ manager. done (record sys { manager = manager })))
      asked (done manager) = unchanged q sys h
      asked panic = tt
  step-Follows (Step.ask p request) sys h =
      with_bridge p sys _ _ (λ b own. delegate-Follows q p b (ask request) sys h own)

  run-append :
      (before after : List Input) (s : State)
      → Run.run q (before ++ after) s ≡ ◌>>=◌ {B = State} (Run.run q before s) (Run.run q after)
  unfolding Run.run
  run-append [] after s = refl
  run-append (input ∷ before) after s = go (λ t. run-append before after t) (Run.step q input s)
    where
      go :
          ((t : State)
            → Run.run q (before ++ after) t
              ≡ ◌>>=◌ {B = State} (Run.run q before t) (Run.run q after))
          → (m : Outcome State)
          → ◌>>=◌ {B = State} m (Run.run q (before ++ after))
            ≡ ◌>>=◌ {B = State} (◌>>=◌ {B = State} m (Run.run q before)) (Run.run q after)
      go rest (done t) = rest t
      go rest panic = refl

  pub run_from-Follows :
      (events : List Event) (sys : System)
      → Owns sys
      → Ensures (Follows q sys (inputs_of q events)) (run btuuid events sys)
  unfolding run inputs_of
  run_from-Follows [] sys h = unchanged q sys h
  run_from-Follows (event ∷ events) sys h =
      Ensures->>= (Follows q sys (input_of q event)) (Follows q sys (inputs_of q (event ∷ events)))
        (step btuuid event sys) (run btuuid events) (step-Follows event sys h)
        (λ t follows.
          Ensures-mono (Follows q t (inputs_of q events)) _ (run btuuid events t)
            (run_from-Follows events t follows.0)
            (λ u later. (
              later.0,
              run-append (input_of q event) (inputs_of q events) (state_of q sys)
                  ∙ ap (λ m. ◌>>=◌ {B = State} m (Run.run q (inputs_of q events))) follows.1
                  ∙ later.1,
            )))

pub start-Owns : Owns start
unfolding start get
start-Owns = record {
  old = λ p b e. absurd (cc);
  apart = λ p q b e f. absurd (cc);
  present = λ p b e. absurd (cc);
}

start-state_of : (q : ℕ) → state_of q start ≡ default
unfolding start state_of get
start-state_of q = refl

-- Whatever CoreBluetooth tells the bridges and the program asks for, in any order, if it does not
-- panic: the delegate of a peripheral is in the state that its own callbacks and requests alone
-- lead to from a new delegate. What happens to other peripherals changes nothing in it.
pub run-state_of :
    (btuuid : BtuuidCrate) (q : ℕ) (events : List Event) {sys : System}
    → run btuuid events start ≡ done sys
    → Run.run q (inputs_of q events) default ≡ done (state_of q sys)
run-state_of btuuid q events e =
    ap (Run.run q (inputs_of q events)) (sym (start-state_of q))
    ∙ (Ensures-done (Follows q start (inputs_of q events)) _
        (run_from-Follows btuuid q events start start-Owns) e).1

-- ===== src/Async/Central/Connecting.antt =====
-- What the future of `connect_with_options` (corebluetooth-async/src/central_manager.rs) resolves to.
use corebluetooth_rs.Prelude.{
  ℕ, ◌≤◌, ◌≡◌, ◌≢◌, refl, sym, ap, ◌∙◌, inl, inr, Bool, true, false, Option, none, some, List, [],
  ◌∷◌, done, Result, ok, err, Ensures, Ensures->>=, Ensures-done, Ensures-mono, arith, ltb,
  if◌then◌else◌, Option-cases,
}
use corebluetooth_rs.Prelude.HashMap.{get, get-held}
use corebluetooth_rs.Async.Crate.{OneshotCrate, pending, ready, Canceled}
use corebluetooth_rs.Async.Central.Connect
use corebluetooth_rs.Async.Central.Delegate
use corebluetooth_rs.Async.Central.Linear.{IsLinear, senders_accounted, run_from-IsLinear}
use corebluetooth_rs.Async.Central.Run.{
  Callback, Request, Input, callback, ask, call, request, step, run,
}
use corebluetooth_rs.Async.Central.State.{State, Event, PeripheralState, new}
use corebluetooth_rs.Async.Oneshot.{
  register, get-register, get-resolve_ne, resolve_found, register_found,
}
use corebluetooth_rs.Async.Trace.{Call, settled}
use corebluetooth_rs.Bluetooth.Central
use corebluetooth_rs.Bluetooth.Advertisement.{AdvertisementData}
use corebluetooth_rs.Bluetooth.Options.{ConnectPeripheralOptions}
use corebluetooth_rs.Error.Async.{Error, from_error, from_canceled}

-- The input neither connects this peripheral nor is about the end of its connecting.
abbrev pub Elsewhere : ℕ → Input → Type 0
Elsewhere p (callback (Callback.did_connect q)) = q ≢ p
Elsewhere p (callback (Callback.did_fail_to_connect q error)) = q ≢ p
Elsewhere p (ask (Request.connect_with_options q options)) = q ≢ p
Elsewhere p _ = Unit

abbrev pub AllElsewhere : ℕ → List Input → Type 0
AllElsewhere p [] = Unit
AllElsewhere p (input ∷ inputs) = Elsewhere p input × AllElsewhere p inputs

abbrev Keeps : ℕ → State → State → Type 0
Keeps p s t = get p t.connecting ≡ get p s.connecting

discover-Keeps :
    (p q : ℕ) (advertisement : AdvertisementData) (rssi : ℕ) (alive : Bool) (s : State)
    → Keeps p s (Delegate.did_discover q advertisement rssi alive s)
unfolding Delegate.did_discover
discover-Keeps p q advertisement rssi true s = elim (Option-cases s.discoveries) [
  | inl e ↦ rw (e, Delegate.did_discover) refl
  | inr (sender, e) ↦ rw (e, Delegate.did_discover) refl
]
discover-Keeps p q advertisement rssi false s = elim (Option-cases s.discoveries) [
  | inl e ↦ rw (e, Delegate.did_discover) refl
  | inr (sender, e) ↦ rw (e, Delegate.did_discover) refl
]

call-Keeps : (p : ℕ) (c : Callback) (s : State) → Elsewhere p (callback c) → Keeps p s (call c s)
unfolding call Delegate.did_update_state Delegate.did_connect Delegate.did_fail_to_connect
    Delegate.did_disconnect Delegate.on_connection_event Delegate.did_update_ancs_authorization
call-Keeps p (Callback.did_discover q advertisement rssi alive) s h =
    discover-Keeps p q advertisement rssi alive s
call-Keeps p (Callback.did_connect q) s h = get-resolve_ne q p _ s.connecting s.trace h
call-Keeps p (Callback.did_fail_to_connect q error) s h =
    get-resolve_ne q p _ s.connecting s.trace h
call-Keeps p _ s h = refl

request-Keeps :
    (p : ℕ) (r : Request) (s : State) → Elsewhere p (ask r) → Ensures (Keeps p s) (request r s)
unfolding request Delegate.state_updated Delegate.disconnects Delegate.connection_events
    Delegate.ancs_authorization_updates Delegate.scan Delegate.discoveries
    Delegate.register_connecting Connect.connect_with_options Connect.drop_guard
    Connect.cancel_peripheral_connection register
request-Keeps p (Request.scan true services allow_duplicates solicited) s h = tt
request-Keeps p (Request.scan false services allow_duplicates solicited) s h = refl
request-Keeps p (Request.connect_with_options q options) s h =
    ground (arith, get-register q p s.connecting s.trace)
request-Keeps p (Request.give_up q PeripheralState.connecting) s h = refl
request-Keeps p (Request.give_up q _) s h = refl
request-Keeps p (Request.cancel_peripheral_connection q PeripheralState.connecting) s h = refl
request-Keeps p (Request.cancel_peripheral_connection q PeripheralState.connected) s h = refl
request-Keeps p (Request.cancel_peripheral_connection q _) s h = refl
request-Keeps p _ s h = refl

step-Keeps :
    (p : ℕ) (input : Input) (s : State) → Elsewhere p input → Ensures (Keeps p s) (step input s)
unfolding step
step-Keeps p (callback c) s h = call-Keeps p c s h
step-Keeps p (ask r) s h = request-Keeps p r s h

run-Keeps :
    (p : ℕ) (inputs : List Input) (s : State)
    → AllElsewhere p inputs
    → Ensures (Keeps p s) (run inputs s)
unfolding run
run-Keeps p [] s h = refl
run-Keeps p (input ∷ inputs) s h =
    Ensures->>= (Keeps p s) (Keeps p s) (step input s) (run inputs) (step-Keeps p input s h.0)
      (λ t kept.
        Ensures-mono (Keeps p t) (Keeps p s) (run inputs t) (run-Keeps p inputs t h.1)
          (λ u later. later ∙ kept))

-- A connection was asked for in a state that callbacks and calls can lead to, and after it only
-- inputs that do not concern its peripheral.
pub record Connecting (p id : ℕ) (s : State) : Type 0 where
  pub before : List Input
  pub asked_in : State
  pub reached : run before new ≡ done asked_in
  pub options : ConnectPeripheralOptions
  pub sender : id ≡ (Connect.connect_with_options p options asked_in).1
  pub after : List Input
  pub alone : AllElsewhere p after
  pub now : run after (Connect.connect_with_options p options asked_in).0 ≡ done s

module _ (p id : ℕ) (s : State) where
  waits : Connecting p id s → get p s.connecting ≡ some id
  unfolding Connect.connect_with_options Delegate.register_connecting register
  waits c =
      let asked = (Connect.connect_with_options p c.options c.asked_in).0 in
      Ensures-done (λ t. get p t.connecting ≡ some id) (run c.after asked)
        (Ensures-mono (Keeps p asked) (λ t. get p t.connecting ≡ some id) (run c.after asked)
          (run-Keeps p c.after asked c.alone)
          (λ t kept. kept ∙ there c.asked_in ∙ ap some (sym c.sender)))
        c.now
    where
      there : (t : State) → get p (register p t.connecting t.trace).0 ≡ some t.trace.next
      there t = ground (arith, get-register p p t.connecting t.trace)

  linear : Connecting p id s → IsLinear s
  unfolding run step request
  linear c =
      Ensures-done IsLinear
        (run (ask (Request.connect_with_options p c.options) ∷ c.after) c.asked_in)
        (run_from-IsLinear (ask (Request.connect_with_options p c.options) ∷ c.after) c.asked_in
          (senders_accounted c.before c.reached))
        now
    where
      now : run (ask (Request.connect_with_options p c.options) ∷ c.after) c.asked_in ≡ done s
      now = c.now

  unused : Connecting p id s → settled id s.trace.calls ≡ 0
  unused c = omega (arith, linear c id, once id s.trace.next, get-held id p s.connecting (waits c))
    where
      once : (id n : ℕ) → (if ltb id n then 1 else 0) ≤ 1
      once id n = ground arith

-- What a callback about the end of the connecting of `p` answers.
abbrev pub answer : Callback → Option (ℕ × Result (Unit {0}) Error)
answer (Callback.did_connect q) = some (q, ok tt)
answer (Callback.did_fail_to_connect q error) = some (q, err (from_error error))
answer _ = none

answered_sends :
    (p id : ℕ) (c : Callback) (r : Result (Unit {0}) Error) (s : State)
    → get p s.connecting ≡ some id
    → answer c ≡ some (p, r)
    → (call c s).trace.calls ≡ Call.send id (Event.connect_result r) ∷ s.trace.calls
unfolding call Delegate.did_connect Delegate.did_fail_to_connect
answered_sends p id (Callback.did_connect q) r s w e =
    let at : q ≡ p = cc in
    let given : ok tt ≡ r = cc in rw at (rw⁻¹ given (resolve_found p id _ s.connecting s.trace w))
answered_sends p id (Callback.did_fail_to_connect q error) r s w e =
    let at : q ≡ p = cc in
    let given : err (from_error error) ≡ r = cc in
    rw at (rw⁻¹ given (resolve_found p id _ s.connecting s.trace w))
answered_sends p id _ r s w e = absurd (cc)

module _ (crate : OneshotCrate Event) (p id : ℕ) (s : State) where
  -- The future of a connection is pending, and leaves the central manager as it is, while no input
  -- connects its peripheral again or is about the end of its connecting; once `did_connect` or
  -- `did_fail_to_connect` comes for the peripheral, it resolves to the result that this brings, and
  -- its guard cancels nothing.
  pub connect_answered :
      Connecting p id s
      → (c : Callback) (r : Result (Unit {0}) Error) (state : PeripheralState)
      → answer c ≡ some (p, r)
      → (Connect.resume p state (crate.poll s.trace.calls id) s ≡ (s, pending))
        × (Connect.resume p state (crate.poll (call c s).trace.calls id) (call c s)
            ≡ (call c s, ready (ok (Event.connect_result r))))
  unfolding Connect.resume
  connect_answered w c r state a = (
    rw (crate.poll_open s.trace.calls id (unused p id s w)) refl,
    rw (answered_sends p id c r s (waits p id s w) a)
        (rw (crate.poll_sent [] s.trace.calls id (Event.connect_result r) (unused p id s w)) refl),
  )

  -- A second connection to a peripheral that is still connecting makes the first one's future
  -- resolve to `Canceled`; and while CoreBluetooth reports the peripheral as connecting, the guard
  -- of the first then cancels the connection that the second waits for.
  pub connect_superseded :
      Connecting p id s
      → (options : ConnectPeripheralOptions)
      → let t = (Connect.connect_with_options p options s).0 in
        Connect.resume p PeripheralState.connecting (crate.poll t.trace.calls id) t
        ≡ (Delegate.tell (Central.cancel_peripheral_connection p) t, ready (err from_canceled))
  unfolding Connect.resume Connect.drop_guard Connect.connect_with_options
      Delegate.register_connecting settled
  connect_superseded w options =
      ap (λ r. Connect.resume p PeripheralState.connecting r asked) polled
    where
      asked : State
      asked = (Connect.connect_with_options p options s).0

      polled : crate.poll asked.trace.calls id ≡ ready (err Canceled.canceled)
      polled =
          ap (λ l. crate.poll l id) (register_found p id s.connecting _ (waits p id s w))
          ∙ crate.poll_closed [] _ id (omega (arith, unused p id s w))

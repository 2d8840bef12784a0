-- ===== src/Async/Central/Linear.antt =====
-- Every connection request of corebluetooth-async/src/central_manager.rs is answered once.
use corebluetooth_rs.Prelude.{
  ℕ, ◌+◌, ◌≡◌, refl, ◌⊎◌, inl, inr, Bool, true, false, Option, none, some, List, [], ◌∷◌, Outcome,
  done, panic, Ensures, Ensures->>=, Ensures-done, arith, ltb, if◌then◌else◌, Option-cases,
}
use corebluetooth_rs.Prelude.HashMap.{held, is_id}
use corebluetooth_rs.Async.Central.Connect
use corebluetooth_rs.Async.Central.Delegate
use corebluetooth_rs.Async.Central.Run.{
  Callback, Request, Input, callback, ask, call, request, step, run,
}
use corebluetooth_rs.Async.Central.State.{State, Event, PeripheralState, new}
use corebluetooth_rs.Async.Oneshot.{register_account, register_next, resolve_account, resolve_next}
use corebluetooth_rs.Async.Trace.{Call, settled}
use corebluetooth_rs.Bluetooth.Advertisement.{AdvertisementData}

abbrev pub account : ℕ → State → ℕ
account id s = held id s.connecting + settled id s.trace.calls

record Kept (id : ℕ) (s t : State) : Type 0 where
  same : account id t ≡ account id s
  next : t.trace.next ≡ s.trace.next

record Issued (id : ℕ) (s t : State) : Type 0 where
  same : account id t ≡ account id s + is_id s.trace.next id
  next : t.trace.next ≡ s.trace.next + 1

abbrev After : ℕ → State → State → Type 0
After id s t = Kept id s t ⊎ Issued id s t

ruleset resolving = (arith, resolve_account, resolve_next)

discover-Kept :
    (id p : ℕ) (advertisement : AdvertisementData) (rssi : ℕ) (alive : Bool) (s : State)
    → Kept id s (Delegate.did_discover p advertisement rssi alive s)
unfolding Delegate.did_discover settled
discover-Kept id p advertisement rssi true s = elim (Option-cases s.discoveries) [
  | inl e ↦ rw (e, Delegate.did_discover) (omega arith)
  | inr (sender, e) ↦ rw (e, Delegate.did_discover) (omega arith)
]
discover-Kept id p advertisement rssi false s = elim (Option-cases s.discoveries) [
  | inl e ↦ rw (e, Delegate.did_discover) (omega arith)
  | inr (sender, e) ↦ rw (e, Delegate.did_discover) (omega arith)
]

call-Kept : (id : ℕ) (c : Callback) (s : State) → Kept id s (call c s)
unfolding call settled Delegate.did_update_state Delegate.did_connect Delegate.did_fail_to_connect
    Delegate.did_disconnect Delegate.on_connection_event Delegate.did_update_ancs_authorization
call-Kept id (Callback.did_update_state state) s = omega arith
call-Kept id (Callback.did_discover p advertisement rssi alive) s =
    discover-Kept id p advertisement rssi alive s
call-Kept id (Callback.did_connect p) s = omega resolving
call-Kept id (Callback.did_fail_to_connect p error) s = omega resolving
call-Kept id (Callback.did_disconnect p time again error) s = omega arith
call-Kept id (Callback.on_connection_event event p) s = omega arith
call-Kept id (Callback.did_update_ancs_authorization p) s = omega arith

dropped :
    (id : ℕ) (old : Option ℕ) (calls : List (Call Event))
    → settled id (Delegate.drop_sender old calls) ≡ settled id calls
unfolding settled
dropped id none calls = refl
dropped id (some old) calls = omega arith

request-After : (id : ℕ) (r : Request) (s : State) → Ensures (After id s) (request r s)
unfolding request settled Delegate.state_updated Delegate.disconnects Delegate.connection_events
    Delegate.ancs_authorization_updates Delegate.scan Delegate.discoveries
    Delegate.register_connecting Connect.connect_with_options Connect.drop_guard
    Connect.cancel_peripheral_connection
request-After id Request.state_updates s = inl (omega arith)
request-After id Request.disconnections s = inl (omega arith)
request-After id Request.connection_events s = inl (omega arith)
request-After id Request.ancs_authorization_updates s = inl (omega arith)
request-After id (Request.scan true services allow_duplicates solicited) s = tt
request-After id (Request.scan false services allow_duplicates solicited) s =
    inl (omega (arith, dropped id s.discoveries _))
request-After id (Request.connect_with_options p options) s =
    inr (omega (arith, register_account, register_next))
request-After id (Request.give_up p PeripheralState.connecting) s = inl (omega arith)
request-After id (Request.give_up p _) s = inl (omega arith)
request-After id (Request.cancel_peripheral_connection p PeripheralState.connecting) s =
    inl (omega arith)
request-After id (Request.cancel_peripheral_connection p PeripheralState.connected) s =
    inl (omega arith)
request-After id (Request.cancel_peripheral_connection p _) s = inl (omega arith)

-- Each sender opened so far is held by `connecting` or was consumed, one of the two and once.
abbrev pub IsLinear : State → Type 0
IsLinear s = (id : ℕ) → account id s ≡ (if ltb id s.trace.next then 1 else 0)

new-IsLinear : IsLinear new
unfolding new settled held
new-IsLinear id = ground arith

After-IsLinear : {s t : State} → IsLinear s → ((id : ℕ) → After id s t) → IsLinear t
After-IsLinear {s} {t} h after id = elim (after id) [
  | inl k ↦ rw (k.same, k.next) (h id)
  | inr k ↦ rw (k.same, k.next) (issue id s.trace.next (account id s) (h id))
]
  where
    issue :
        (id n a : ℕ)
        → a ≡ (if ltb id n then 1 else 0)
        → a + is_id n id ≡ (if ltb id (n + 1) then 1 else 0)
    issue id n a e = ground arith

request-IsLinear : (r : Request) (s : State) → IsLinear s → Ensures IsLinear (request r s)
request-IsLinear r s h = both (request r s) (λ id. request-After id r s)
  where
    both : (m : Outcome State) → ((id : ℕ) → Ensures (After id s) m) → Ensures IsLinear m
    both (done t) after = After-IsLinear {s = s} {t = t} h after
    both panic after = tt

step-IsLinear : (input : Input) (s : State) → IsLinear s → Ensures IsLinear (step input s)
unfolding step
step-IsLinear (callback c) s h =
    After-IsLinear {s = s} {t = call c s} h (λ id. inl (call-Kept id c s))
step-IsLinear (ask r) s h = request-IsLinear r s h

pub run_from-IsLinear :
    (inputs : List Input) (s : State) → IsLinear s → Ensures IsLinear (run inputs s)
unfolding run
run_from-IsLinear [] s h = h
run_from-IsLinear (input ∷ inputs) s h =
    Ensures->>= IsLinear IsLinear (step input s) (run inputs) (step-IsLinear input s h)
      (λ t k. run_from-IsLinear inputs t k)

-- After any callbacks and calls of the central manager, in any order and none of them with a
-- panic, each oneshot sender that was opened is held by exactly one entry of `connecting`, or
-- was used or dropped exactly once, and never both; no other sender is held or was used.
pub senders_accounted : (inputs : List Input) {s : State} → run inputs new ≡ done s → IsLinear s
senders_accounted inputs e =
    Ensures-done IsLinear (run inputs new) (run_from-IsLinear inputs new new-IsLinear) e

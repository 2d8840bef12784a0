-- ===== src/Async/Peripheral/Heeded.antt =====
-- The broadcast channels of corebluetooth-async/src/peripheral.rs over any callbacks and requests.
use corebluetooth_rs.Prelude.{
  ℕ, refl, true, false, [], ◌∷◌, done, Ensures, Ensures->>=, Bool-cases, Option-cases, inl, inr,
  ◌==◌, arith,
}
use corebluetooth_rs.Prelude.HashMap.{get}
use corebluetooth_rs.Async.Peripheral.Requests
use corebluetooth_rs.Async.Peripheral.Run.{Request, Input, callback, ask, request, step}
use corebluetooth_rs.Async.Peripheral.Said.{
  Grows, Grows-trans, Goes, calm, aside, silence, register-Grows, register_cell-Grows,
}
use corebluetooth_rs.Async.Peripheral.Spoken.{
  same_topics, same_trace, recelled, insert-AllLater, callback-Goes,
}
use corebluetooth_rs.Async.Peripheral.State.{State, Update}
use corebluetooth_rs.Async.Peripheral.Topics.{says, IsFixed}
use corebluetooth_rs.Bluetooth.Peripheral
use corebluetooth_rs.Bluetooth.Messages.{Message}
use corebluetooth_rs.Async.Trace.{Call, Trace, add, broadcast}

told-Grows : (message : Message) (t : Trace Update) → Grows silence t (add (Call.message message) t)
told-Grows message t = aside (Call.message message) t (λ topic. refl)

subscribed-Grows :
    (channel : ℕ) (t : Trace Update) → Grows silence t (add (Call.new_receiver channel) t)
subscribed-Grows channel t = aside (Call.new_receiver channel) t (λ topic. refl)

pub subscribed-Goes :
    (j : ℕ) (s : State)
    → IsFixed s
    → Ensures (λ r. Goes silence s r.0) (Requests.characteristic_value_updates j s)
unfolding Requests.characteristic_value_updates broadcast
subscribed-Goes j s h = elim (Option-cases (get j cell.value)) [
  | inl e ↦ elim (Bool-cases (cell.readers == 0)) [
    | inl f ↦
        rw (e, f, Requests.characteristic_value_updates)
          (recelled s _ _ h (insert-AllLater j s.trace.next_broadcast cell.value h.later h.next)
            opened)
    | inr f ↦ rw (e, f, Requests.characteristic_value_updates) tt
  ]
  | inr (sender, e) ↦ elim (Bool-cases (cell.readers == 0)) [
    | inl f ↦
        rw (e, f, Requests.characteristic_value_updates)
          (recelled s _ _ h h.later (subscribed-Grows sender s.trace))
    | inr f ↦ rw (e, f, Requests.characteristic_value_updates) tt
  ]
]
  where
    open s use {characteristic_value_updates as cell}

    opened :
        Grows silence s.trace
          (add (Call.new_receiver s.trace.next_broadcast) (broadcast 16 s.trace).1)
    opened = record {
      new =
          Call.new_receiver s.trace.next_broadcast
          ∷ Call.open_broadcast s.trace.next_broadcast 16
          ∷ [];
      calls = refl;
      counted = λ topic. refl;
      next = omega arith;
    }

pub request-Goes :
    (peripheral : ℕ) (r : Request) (s : State)
    → IsFixed s
    → Ensures (Goes silence s) (request peripheral r s)
unfolding request Requests.name_updates Requests.services_changed Requests.discover_services
    Requests.ready_to_send_write_without_response Requests.read_rssi
    Requests.read_characteristic_value Requests.open_l2cap_channel
    Requests.discover_included_services Requests.discover_characteristics
    Requests.discover_descriptors Requests.set_notify Requests.write_characteristic_value
    Requests.read_descriptor_value Requests.write_descriptor_value
request-Goes peripheral (Request.discover_included_services k o) s h =
    let told = (Requests.tell (Peripheral.discover_included_services peripheral k o) s).trace in
    calm (Requests.discover_included_services peripheral k o s).0 h
      (same_topics s _ refl refl refl refl refl) refl
      (Grows-trans (told-Grows (Peripheral.discover_included_services peripheral k o) s.trace)
        (register-Grows k s.included_service_discovery told))
request-Goes peripheral (Request.discover_characteristics k o) s h =
    let told = (Requests.tell (Peripheral.discover_characteristics peripheral k o) s).trace in
    calm (Requests.discover_characteristics peripheral k o s).0 h
      (same_topics s _ refl refl refl refl refl) refl
      (Grows-trans (told-Grows (Peripheral.discover_characteristics peripheral k o) s.trace)
        (register-Grows k s.characteristic_discovery told))
request-Goes peripheral (Request.discover_descriptors k) s h =
    let told = (Requests.tell (Peripheral.discover_descriptors peripheral k) s).trace in
    calm (Requests.discover_descriptors peripheral k s).0 h
      (same_topics s _ refl refl refl refl refl) refl
      (Grows-trans (told-Grows (Peripheral.discover_descriptors peripheral k) s.trace)
        (register-Grows k s.descriptor_discovery told))
request-Goes peripheral (Request.set_notify k b) s h =
    let told = (Requests.tell (Peripheral.set_notify peripheral k b) s).trace in
    calm (Requests.set_notify peripheral k b s).0 h (same_topics s _ refl refl refl refl refl) refl
      (Grows-trans (told-Grows (Peripheral.set_notify peripheral k b) s.trace)
        (register-Grows k s.notification_updates told))
request-Goes peripheral (Request.write_characteristic_value k b t) s h =
    let told = (Requests.tell (Peripheral.write_characteristic_value peripheral k b t) s).trace in
    calm (Requests.write_characteristic_value peripheral k b t s).0 h
      (same_topics s _ refl refl refl refl refl) refl
      (Grows-trans (told-Grows (Peripheral.write_characteristic_value peripheral k b t) s.trace)
        (register-Grows k s.characteristic_writes told))
request-Goes peripheral (Request.read_descriptor_value k) s h =
    let told = (Requests.tell (Peripheral.read_descriptor_value peripheral k) s).trace in
    calm (Requests.read_descriptor_value peripheral k s).0 h
      (same_topics s _ refl refl refl refl refl) refl
      (Grows-trans (told-Grows (Peripheral.read_descriptor_value peripheral k) s.trace)
        (register-Grows k s.descriptor_value_updates told))
request-Goes peripheral (Request.write_descriptor_value k b) s h =
    let told = (Requests.tell (Peripheral.write_descriptor_value peripheral k b) s).trace in
    calm (Requests.write_descriptor_value peripheral k b s).0 h
      (same_topics s _ refl refl refl refl refl) refl
      (Grows-trans (told-Grows (Peripheral.write_descriptor_value peripheral k b) s.trace)
        (register-Grows k s.descriptor_writes told))
request-Goes peripheral (Request.open_l2cap_channel psm) s h =
    let told = (Requests.tell (Peripheral.open_l2cap_channel peripheral psm) s).trace in
    calm (Requests.open_l2cap_channel peripheral psm s).0 h
      (same_topics s _ refl refl refl refl refl) refl
      (Grows-trans (told-Grows _ s.trace) (register_cell-Grows s.l2cap_channel_opened told))
request-Goes peripheral Request.name_changed s h =
    recelled s s.characteristic_value_updates _ h h.later (subscribed-Grows _ s.trace)
request-Goes peripheral Request.services_changed s h =
    recelled s s.characteristic_value_updates _ h h.later (subscribed-Grows _ s.trace)
request-Goes peripheral (Request.discover_services o) s h =
    recelled s s.characteristic_value_updates _ h h.later
      (Grows-trans (told-Grows _ s.trace) (subscribed-Grows _ _))
request-Goes peripheral Request.read_rssi s h =
    recelled s s.characteristic_value_updates _ h h.later
      (Grows-trans (told-Grows _ s.trace) (subscribed-Grows _ _))
request-Goes peripheral (Request.ready_to_send_write_without_response true) s h =
    recelled s s.characteristic_value_updates s.trace h h.later (same_trace s.trace)
request-Goes peripheral (Request.ready_to_send_write_without_response false) s h =
    recelled s s.characteristic_value_updates _ h h.later (subscribed-Grows _ s.trace)
request-Goes peripheral (Request.characteristic_value_updates j) s h =
    Ensures->>= (λ r. Goes silence s r.0) (Goes silence s)
      (Requests.characteristic_value_updates j s) (λ r. done r.0) (subscribed-Goes j s h)
      (λ r goes. goes)
request-Goes peripheral (Request.read_characteristic_value j) s h =
    let told = Requests.tell (Peripheral.read_characteristic_value peripheral j) s in
    let silent = told-Grows (Peripheral.read_characteristic_value peripheral j) s.trace in
    Ensures->>= (λ r. Goes silence told r.0) (Goes silence s)
      (Requests.characteristic_value_updates j told) (λ r. done r.0)
      (subscribed-Goes j told
        (recelled s s.characteristic_value_updates told.trace h h.later silent).fixed)
      (λ r goes. record { fixed = goes.fixed; grows = Grows-trans silent goes.grows })

pub step-Goes :
    (peripheral : ℕ) (input : Input) (s : State)
    → IsFixed s
    → Ensures (Goes (says input) s) (step peripheral input s)
unfolding step
step-Goes peripheral (callback c) s h = callback-Goes c s h
step-Goes peripheral (ask r) s h = request-Goes peripheral r s h

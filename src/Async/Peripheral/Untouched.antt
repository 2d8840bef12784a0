-- ===== src/Async/Peripheral/Untouched.antt =====
-- What a callback or a request of corebluetooth-async/src/peripheral.rs leaves alone: the sender
-- that waits in a slot for an object stays there until that slot is asked or answered for it.
use corebluetooth_rs.Prelude.{
  ℕ, refl, ◌∙◌, true, false, done, Ensures, Ensures-mono, Ensures->>=, Bool-cases, Option-cases,
  inl, inr, ◌==◌,
}
use corebluetooth_rs.Prelude.HashMap.{get}
use corebluetooth_rs.Async.Peripheral.Requests
use corebluetooth_rs.Async.Peripheral.Run.{Request, Input, callback, ask, request, step}
use corebluetooth_rs.Async.Peripheral.Slots.{Slot, Asks, Touches}
use corebluetooth_rs.Async.Peripheral.State.{State}
use corebluetooth_rs.Bluetooth.Peripheral
use corebluetooth_rs.Async.Peripheral.CallbackKeeps.{
  Keeps, indifferent, other_key, get-register_ne, callback-Keeps,
}

subscribed-Keeps :
    (slot : Slot) (k j : ℕ) (s : State)
    → Ensures (λ r. Keeps slot k s r.0) (Requests.characteristic_value_updates j s)
unfolding Requests.characteristic_value_updates
subscribed-Keeps slot k j s = elim (Option-cases (get j cell.value)) [
  | inl e ↦ elim (Bool-cases (cell.readers == 0)) [
    | inl f ↦ rw (e, f, Requests.characteristic_value_updates) (indifferent slot k s _ _)
    | inr f ↦ rw (e, f, Requests.characteristic_value_updates) tt
  ]
  | inr (sender, e) ↦ elim (Bool-cases (cell.readers == 0)) [
    | inl f ↦ rw (e, f, Requests.characteristic_value_updates) (indifferent slot k s _ _)
    | inr f ↦ rw (e, f, Requests.characteristic_value_updates) tt
  ]
]
  where
    open s use {characteristic_value_updates as cell}

read-Keeps :
    (slot : Slot) (peripheral k j : ℕ) (s : State)
    → Ensures (λ r. Keeps slot k s r.0) (Requests.read_characteristic_value peripheral j s)
unfolding Requests.read_characteristic_value
read-Keeps slot peripheral k j s =
    let told = Requests.tell (Peripheral.read_characteristic_value peripheral j) s in
    Ensures-mono (λ r. Keeps slot k told r.0) (λ r. Keeps slot k s r.0)
      (Requests.characteristic_value_updates j told) (subscribed-Keeps slot k j told)
      (λ r kept. kept ∙ indifferent slot k s s.characteristic_value_updates told.trace)

request-Keeps :
    (peripheral : ℕ) (r : Request) (slot : Slot) (k : ℕ) (s : State)
    → ¬ Touches (ask r) slot k
    → Ensures (Keeps slot k s) (request peripheral r s)
unfolding request Requests.name_updates Requests.services_changed Requests.discover_services
    Requests.discover_included_services Requests.discover_characteristics
    Requests.discover_descriptors Requests.read_descriptor_value Requests.write_characteristic_value
    Requests.write_descriptor_value Requests.set_notify
    Requests.ready_to_send_write_without_response Requests.read_rssi Requests.open_l2cap_channel
request-Keeps peripheral Request.name_changed slot k s h =
    indifferent slot k s s.characteristic_value_updates (Requests.name_updates s).0.trace
request-Keeps peripheral Request.services_changed slot k s h =
    indifferent slot k s s.characteristic_value_updates (Requests.services_changed s).0.trace
request-Keeps peripheral (Request.discover_services o) slot k s h =
    indifferent slot k s s.characteristic_value_updates
      (Requests.discover_services peripheral o s).0.trace
request-Keeps peripheral Request.read_rssi slot k s h =
    indifferent slot k s s.characteristic_value_updates (Requests.read_rssi peripheral s).0.trace
request-Keeps peripheral (Request.discover_included_services j o) Slot.included_services k s h =
    get-register_ne j k _ _ (
      other_key
        (λ x. Touches (ask (Request.discover_included_services j o)) Slot.included_services x) j k
        (Touches.asks (Asks.included_services j o)) h)
request-Keeps peripheral (Request.discover_included_services j o) _ k s h = refl
request-Keeps peripheral (Request.discover_characteristics j o) Slot.characteristics k s h =
    get-register_ne j k _ _ (
      other_key (λ x. Touches (ask (Request.discover_characteristics j o)) Slot.characteristics x) j
        k (Touches.asks (Asks.characteristics j o)) h)
request-Keeps peripheral (Request.discover_characteristics j o) _ k s h = refl
request-Keeps peripheral (Request.discover_descriptors j) Slot.descriptors k s h =
    get-register_ne j k _ _ (
      other_key (λ x. Touches (ask (Request.discover_descriptors j)) Slot.descriptors x) j k
        (Touches.asks (Asks.descriptors j)) h)
request-Keeps peripheral (Request.discover_descriptors j) _ k s h = refl
request-Keeps peripheral (Request.set_notify j b) Slot.notification k s h =
    get-register_ne j k _ _ (
      other_key (λ x. Touches (ask (Request.set_notify j b)) Slot.notification x) j k
        (Touches.asks (Asks.notification j b)) h)
request-Keeps peripheral (Request.set_notify j b) _ k s h = refl
request-Keeps peripheral (Request.write_characteristic_value j b t) Slot.characteristic_write k s
      h =
    get-register_ne j k _ _ (
      other_key
        (λ x. Touches (ask (Request.write_characteristic_value j b t)) Slot.characteristic_write x)
        j k (Touches.asks (Asks.characteristic_write j b t)) h)
request-Keeps peripheral (Request.write_characteristic_value j b t) _ k s h = refl
request-Keeps peripheral (Request.read_descriptor_value j) Slot.descriptor_value k s h =
    get-register_ne j k _ _ (
      other_key (λ x. Touches (ask (Request.read_descriptor_value j)) Slot.descriptor_value x) j k
        (Touches.asks (Asks.descriptor_value j)) h)
request-Keeps peripheral (Request.read_descriptor_value j) _ k s h = refl
request-Keeps peripheral (Request.write_descriptor_value j b) Slot.descriptor_write k s h =
    get-register_ne j k _ _ (
      other_key (λ x. Touches (ask (Request.write_descriptor_value j b)) Slot.descriptor_write x) j
        k (Touches.asks (Asks.descriptor_write j b)) h)
request-Keeps peripheral (Request.write_descriptor_value j b) _ k s h = refl
request-Keeps peripheral (Request.read_characteristic_value j) slot k s h =
    Ensures->>= (λ r. Keeps slot k s r.0) (Keeps slot k s)
      (Requests.read_characteristic_value peripheral j s) (λ r. done r.0)
      (read-Keeps slot peripheral k j s) (λ r kept. kept)
request-Keeps peripheral (Request.characteristic_value_updates j) slot k s h =
    Ensures->>= (λ r. Keeps slot k s r.0) (Keeps slot k s)
      (Requests.characteristic_value_updates j s) (λ r. done r.0) (subscribed-Keeps slot k j s)
      (λ r kept. kept)
request-Keeps peripheral (Request.ready_to_send_write_without_response true) slot k s h = refl
request-Keeps peripheral (Request.ready_to_send_write_without_response false) slot k s h =
    indifferent slot k s s.characteristic_value_updates (Requests.ready_to_send s).0.trace
request-Keeps peripheral (Request.open_l2cap_channel psm) Slot.l2cap k s h =
    absurd (h (Touches.asks (Asks.l2cap psm k)))
request-Keeps peripheral (Request.open_l2cap_channel psm) _ k s h = refl

-- An input that neither asks nor answers a slot for an object leaves the waiting sender there.
pub step-Keeps :
    (peripheral : ℕ) (input : Input) (slot : Slot) (k : ℕ) (s : State)
    → ¬ Touches input slot k
    → Ensures (Keeps slot k s) (step peripheral input s)
unfolding step
step-Keeps peripheral (callback c) slot k s h = callback-Keeps c slot k s h
step-Keeps peripheral (ask r) slot k s h = request-Keeps peripheral r slot k s h

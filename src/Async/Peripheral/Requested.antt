-- ===== src/Async/Peripheral/Requested.antt =====
-- What the requests of corebluetooth-async/src/peripheral.rs do to the mailboxes.
use corebluetooth_rs.Async.Peripheral.Shown.{unseen}
use corebluetooth_rs.Prelude.{
  ℕ, ◌≡◌, refl, done, Ensures, Ensures->>=, true, false, Bool-cases, Option-cases, inl, inr, ◌==◌,
}
use corebluetooth_rs.Prelude.HashMap.{get}
use corebluetooth_rs.Async.Peripheral.Requests
use corebluetooth_rs.Bluetooth.Peripheral
use corebluetooth_rs.Bluetooth.Peripheral.{CharacteristicWriteType}
use corebluetooth_rs.Async.Peripheral.Mailbox.{nothing, meaning}
use corebluetooth_rs.Async.Peripheral.Observed.{Shows, ends_of, map_at}
use corebluetooth_rs.Async.Peripheral.Placed.{asked-Shows}
use corebluetooth_rs.Async.Peripheral.Run.{Request, ask, request}
use corebluetooth_rs.Bluetooth.Messages.{Message}
use corebluetooth_rs.Async.Peripheral.Slots.{Slot}
use corebluetooth_rs.Async.Peripheral.State.{State}

subscribed-Shows :
    (j : ℕ) (s : State)
    → Ensures (λ r. Shows nothing s r.0) (Requests.characteristic_value_updates j s)
unfolding Requests.characteristic_value_updates ends_of
subscribed-Shows j s = elim (Option-cases (get j cell.value)) [
  | inl e ↦ elim (Bool-cases (cell.readers == 0)) [
    | inl f ↦ rw (e, f, Requests.characteristic_value_updates) (unseen s _ _ refl refl)
    | inr f ↦ rw (e, f, Requests.characteristic_value_updates) tt
  ]
  | inr (sender, e) ↦ elim (Bool-cases (cell.readers == 0)) [
    | inl f ↦ rw (e, f, Requests.characteristic_value_updates) (unseen s _ _ refl refl)
    | inr f ↦ rw (e, f, Requests.characteristic_value_updates) tt
  ]
]
  where
    open s use {characteristic_value_updates as cell}

-- Nothing is seen of a message to CoreBluetooth.
untell :
    (message : Message) {s t : State}
    → Shows nothing (Requests.tell message s) t
    → Shows nothing s t
unfolding ends_of
untell message {s} {t} shows = record {
  maps = λ slot. kept slot;
  ended = shows.ended;
  next = shows.next;
}
  where
    kept : (slot : Slot) → map_at slot t ≡ map_at slot s
    kept Slot.included_services = shows.maps Slot.included_services
    kept Slot.characteristics = shows.maps Slot.characteristics
    kept Slot.descriptors = shows.maps Slot.descriptors
    kept Slot.notification = shows.maps Slot.notification
    kept Slot.characteristic_write = shows.maps Slot.characteristic_write
    kept Slot.descriptor_value = shows.maps Slot.descriptor_value
    kept Slot.descriptor_write = shows.maps Slot.descriptor_write
    kept Slot.l2cap = shows.maps Slot.l2cap

pub request-Shows :
    (peripheral : ℕ) (r : Request) (s : State)
    → Ensures (Shows (meaning (ask r)) s) (request peripheral r s)
unfolding request meaning Requests.read_characteristic_value Requests.ready_to_send ends_of
    Requests.name_updates Requests.services_changed Requests.discover_services
    Requests.ready_to_send_write_without_response Requests.read_rssi
    Requests.discover_included_services Requests.discover_characteristics
    Requests.discover_descriptors Requests.set_notify Requests.write_characteristic_value
    Requests.read_descriptor_value Requests.write_descriptor_value Requests.open_l2cap_channel
request-Shows peripheral Request.name_changed s =
    unseen s s.characteristic_value_updates (Requests.name_updates s).0.trace refl refl
request-Shows peripheral Request.services_changed s =
    unseen s s.characteristic_value_updates (Requests.services_changed s).0.trace refl refl
request-Shows peripheral (Request.discover_services o) s =
    unseen s s.characteristic_value_updates (Requests.discover_services peripheral o s).0.trace refl
      refl
request-Shows peripheral Request.read_rssi s =
    unseen s s.characteristic_value_updates (Requests.read_rssi peripheral s).0.trace refl refl
request-Shows peripheral (Request.ready_to_send_write_without_response true) s =
    unseen s s.characteristic_value_updates s.trace refl refl
request-Shows peripheral (Request.ready_to_send_write_without_response false) s =
    unseen s s.characteristic_value_updates (Requests.ready_to_send s).0.trace refl refl
request-Shows peripheral (Request.characteristic_value_updates j) s =
    Ensures->>= (λ r. Shows nothing s r.0) (Shows nothing s)
      (Requests.characteristic_value_updates j s) (λ r. done r.0) (subscribed-Shows j s)
      (λ r shows. shows)
request-Shows peripheral (Request.read_characteristic_value j) s =
    let told = Requests.tell (Peripheral.read_characteristic_value peripheral j) s in
    Ensures->>= (λ r. Shows nothing told r.0) (Shows nothing s)
      (Requests.characteristic_value_updates j told) (λ r. done r.0) (subscribed-Shows j told)
      (λ r shows. untell (Peripheral.read_characteristic_value peripheral j) shows)
request-Shows peripheral (Request.discover_included_services k o) s =
    asked-Shows Slot.included_services k (Peripheral.discover_included_services peripheral k o) s
request-Shows peripheral (Request.discover_characteristics k o) s =
    asked-Shows Slot.characteristics k (Peripheral.discover_characteristics peripheral k o) s
request-Shows peripheral (Request.discover_descriptors k) s =
    asked-Shows Slot.descriptors k (Peripheral.discover_descriptors peripheral k) s
request-Shows peripheral (Request.set_notify k b) s =
    asked-Shows Slot.notification k (Peripheral.set_notify peripheral k b) s
request-Shows peripheral (Request.write_characteristic_value k b t) s =
    asked-Shows Slot.characteristic_write k (Peripheral.write_characteristic_value peripheral k b t)
      s
request-Shows peripheral (Request.read_descriptor_value k) s =
    asked-Shows Slot.descriptor_value k (Peripheral.read_descriptor_value peripheral k) s
request-Shows peripheral (Request.write_descriptor_value k b) s =
    asked-Shows Slot.descriptor_write k (Peripheral.write_descriptor_value peripheral k b) s
request-Shows peripheral (Request.open_l2cap_channel psm) s =
    asked-Shows Slot.l2cap 0 (Peripheral.open_l2cap_channel peripheral psm) s

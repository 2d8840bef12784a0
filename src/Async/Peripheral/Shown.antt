-- ===== src/Async/Peripheral/Shown.antt =====
-- The changes of a state of corebluetooth-async/src/peripheral.rs that no mailbox sees: those of the
-- broadcast channels.
use corebluetooth_rs.Prelude.{
  ℕ, ◌≡◌, refl, Option, none, some, ok, err, Ensures, Ensures-mono, Bool-cases, Option-cases, inl,
  inr, ◌==◌,
}
use corebluetooth_rs.Prelude.Bytes.{Bytes}
use corebluetooth_rs.Prelude.HashMap.{HashMap, get}
use corebluetooth_rs.Async.Peripheral.Callbacks
use corebluetooth_rs.Async.Peripheral.Mailbox.{nothing}
use corebluetooth_rs.Async.Peripheral.Observed.{Shows, ends_of, map_at}
use corebluetooth_rs.Async.Peripheral.Slots.{Slot}
use corebluetooth_rs.Async.Peripheral.State.{State, Update, CbResult}
use corebluetooth_rs.Async.RefCell
use corebluetooth_rs.Async.RefCell.{RefCell}
use corebluetooth_rs.Async.Trace.{Trace}

-- A change of the broadcast channels of the characteristics, and of the trace without a oneshot.
pub unseen :
    (s : State) (cell : RefCell (HashMap ℕ)) (trace : Trace Update)
    → ends_of trace.calls ≡ ends_of s.trace.calls
    → trace.next ≡ s.trace.next
    → Shows nothing s (record s { characteristic_value_updates = cell; trace = trace })
unseen s cell trace same_ends same_next = record {
  maps = λ slot. kept slot;
  ended = same_ends;
  next = same_next;
}
  where
    kept :
        (slot : Slot)
        → map_at slot (record s { characteristic_value_updates = cell; trace = trace })
          ≡ map_at slot s
    kept Slot.included_services = refl
    kept _ = refl

deliver-Shows :
    (j sender : ℕ) (r : CbResult (Unit {0})) (v : Option Bytes) (n : ℕ) (s : State)
    → Ensures (Shows nothing s) (Callbacks.deliver_value j sender r v n s)
unfolding Callbacks.deliver_value ends_of
deliver-Shows j sender (ok u) none n s = tt
deliver-Shows j sender (ok u) (some bytes) n s = elim (Bool-cases (n == 0)) [
  | inl e ↦ elim (Bool-cases (s.characteristic_value_updates.readers == 0)) [
    | inl f ↦ rw (e, f) (unseen s _ s.trace refl refl)
    | inr f ↦ rw (e, f) tt
  ]
  | inr e ↦ rw e (unseen s _ _ refl refl)
]
deliver-Shows j sender (err x) v n s = elim (Bool-cases (n == 0)) [
  | inl e ↦ elim (Bool-cases (s.characteristic_value_updates.readers == 0)) [
    | inl f ↦ rw (e, f) (unseen s _ s.trace refl refl)
    | inr f ↦ rw (e, f) tt
  ]
  | inr e ↦ rw e (unseen s _ _ refl refl)
]

-- Nothing is seen of a borrow.
unborrow :
    {s t : State}
    → Shows nothing
        (record s { characteristic_value_updates = RefCell.borrow s.characteristic_value_updates })
        t
    → Shows nothing s t
unborrow {s} {t} shows = record { maps = λ slot. kept slot; ended = shows.ended; next = shows.next }
  where
    kept : (slot : Slot) → map_at slot t ≡ map_at slot s
    kept Slot.included_services = shows.maps Slot.included_services
    kept Slot.characteristics = shows.maps Slot.characteristics
    kept Slot.descriptors = shows.maps Slot.descriptors
    kept Slot.notification = shows.maps Slot.notification
    kept Slot.characteristic_write = shows.maps Slot.characteristic_write
    kept Slot.descriptor_value = shows.maps Slot.descriptor_value
    kept Slot.descriptor_write = shows.maps Slot.descriptor_write
    kept Slot.l2cap = shows.maps Slot.l2cap

pub value-Shows :
    (j : ℕ) (r : CbResult (Unit {0})) (v : Option Bytes) (n : ℕ) (s : State)
    → Ensures (Shows nothing s) (Callbacks.did_update_value_for_characteristic j r v n s)
unfolding Callbacks.did_update_value_for_characteristic
value-Shows j r v n s = elim (Option-cases (get j s.characteristic_value_updates.value)) [
  | inl e ↦
      rw (e, Callbacks.did_update_value_for_characteristic)
        (unseen s s.characteristic_value_updates s.trace refl refl)
  | inr (sender, e) ↦
      let borrowed = record s {
        characteristic_value_updates = RefCell.borrow s.characteristic_value_updates;
      } in
      rw (e, Callbacks.did_update_value_for_characteristic)
        (Ensures-mono (Shows nothing borrowed) (Shows nothing s)
          (Callbacks.deliver_value j sender r v n borrowed) (deliver-Shows j sender r v n borrowed)
          (λ t shows. unborrow shows))
]

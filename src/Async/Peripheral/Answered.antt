-- ===== src/Async/Peripheral/Answered.antt =====
-- What the callbacks of corebluetooth-async/src/peripheral.rs do to the mailboxes.
use corebluetooth_rs.Async.Peripheral.Shown.{unseen, value-Shows}
use corebluetooth_rs.Prelude.{
  ℕ, map_ok, ◌≡◌, refl, sym, Option, none, some, ok, err, Ensures, Option-cases, inl, inr,
}
use corebluetooth_rs.Prelude.Bytes.{Bytes}
use corebluetooth_rs.Prelude.HashMap.{get, remove_absent}
use corebluetooth_rs.Async.Peripheral.Callbacks
use corebluetooth_rs.Async.Peripheral.Mailbox.{answers, meaning}
use corebluetooth_rs.Async.Peripheral.Observed.{Shows, changed, ends_of, map_at}
use corebluetooth_rs.Async.Peripheral.Placed.{answered-Shows}
use corebluetooth_rs.Async.Peripheral.Run.{Callback, callback, call}
use corebluetooth_rs.Async.Peripheral.Slots.{Slot}
use corebluetooth_rs.Async.Peripheral.State.{State, Update, CbResult}

-- With no request that waits, the mailbox has nothing to give.
nobody_waits :
    (k : ℕ) (reply : Update) (s : State)
    → get k s.descriptor_value_updates ≡ none
    → Shows (answers Slot.descriptor_value k reply) s s
nobody_waits k reply s absent = record {
  maps = λ slot. kept slot;
  ended = rw absent refl;
  next = refl;
}
  where
    kept :
        (slot : Slot)
        → map_at slot s
          ≡ changed (answers Slot.descriptor_value k reply) s.trace.next slot (map_at slot s)
    kept Slot.descriptor_value = sym (remove_absent k s.descriptor_value_updates absent)
    kept Slot.included_services = refl
    kept _ = refl

descriptor-Shows :
    (k : ℕ) (r : CbResult (Unit {0})) (v : Option Bytes) (s : State)
    → Ensures
        (Shows (meaning (callback (Callback.did_update_value_for_descriptor k r v))) s)
        (Callbacks.did_update_value_for_descriptor k r v s)
unfolding Callbacks.did_update_value_for_descriptor meaning
descriptor-Shows k (ok u) none s = elim (Option-cases (get k s.descriptor_value_updates)) [
  | inl e ↦
      rw (e, Callbacks.did_update_value_for_descriptor)
        (unseen s s.characteristic_value_updates s.trace refl refl)
  | inr (sender, e) ↦ rw (e, Callbacks.did_update_value_for_descriptor) tt
]
descriptor-Shows k (ok u) (some bytes) s = elim (Option-cases (get k s.descriptor_value_updates)) [
  | inl e ↦ rw (e, Callbacks.did_update_value_for_descriptor) (nobody_waits k _ s e)
  | inr (sender, e) ↦
      rw (e, Callbacks.did_update_value_for_descriptor) (answered-Shows Slot.descriptor_value k _ s)
]
descriptor-Shows k (err x) v s = elim (Option-cases (get k s.descriptor_value_updates)) [
  | inl e ↦ rw (e, Callbacks.did_update_value_for_descriptor) (nobody_waits k _ s e)
  | inr (sender, e) ↦
      rw (e, Callbacks.did_update_value_for_descriptor) (answered-Shows Slot.descriptor_value k _ s)
]

pub callback-Shows :
    (c : Callback) (s : State) → Ensures (Shows (meaning (callback c)) s) (call c s)
unfolding call meaning ends_of Callbacks.did_update_name Callbacks.did_modify_services
    Callbacks.did_read_rssi Callbacks.did_discover_services
    Callbacks.is_ready_to_send_write_without_response Callbacks.did_discover_included_services
    Callbacks.did_discover_characteristics Callbacks.did_write_value_for_characteristic
    Callbacks.did_discover_descriptors_for_characteristic Callbacks.did_write_value_for_descriptor
    Callbacks.did_update_notification_state_for_characteristic Callbacks.did_open_l2cap_channel
callback-Shows (Callback.did_update_name x) s =
    unseen s s.characteristic_value_updates (Callbacks.did_update_name x s).trace refl refl
callback-Shows (Callback.did_modify_services x) s =
    unseen s s.characteristic_value_updates (Callbacks.did_modify_services x s).trace refl refl
callback-Shows (Callback.did_read_rssi x) s =
    unseen s s.characteristic_value_updates (Callbacks.did_read_rssi x s).trace refl refl
callback-Shows (Callback.did_discover_services x) s =
    unseen s s.characteristic_value_updates (Callbacks.did_discover_services x s).trace refl refl
callback-Shows Callback.is_ready_to_send_write_without_response s =
    unseen s s.characteristic_value_updates
      (Callbacks.is_ready_to_send_write_without_response s).trace refl refl
callback-Shows (Callback.did_discover_included_services k r) s =
    answered-Shows Slot.included_services k (Update.unit (Callbacks.convert r)) s
callback-Shows (Callback.did_discover_characteristics k r) s =
    answered-Shows Slot.characteristics k (Update.unit (Callbacks.convert r)) s
callback-Shows (Callback.did_update_value_for_characteristic k r v n) s = value-Shows k r v n s
callback-Shows (Callback.did_write_value_for_characteristic k r) s =
    answered-Shows Slot.characteristic_write k (Update.unit (Callbacks.convert r)) s
callback-Shows (Callback.did_update_notification_state k r b) s =
    answered-Shows Slot.notification k (Update.notifying (Callbacks.convert (map_ok (λ _. b) r))) s
callback-Shows (Callback.did_discover_descriptors k r) s =
    answered-Shows Slot.descriptors k (Update.unit (Callbacks.convert r)) s
callback-Shows (Callback.did_update_value_for_descriptor k r v) s = descriptor-Shows k r v s
callback-Shows (Callback.did_write_value_for_descriptor k r) s =
    answered-Shows Slot.descriptor_write k (Update.unit (Callbacks.convert r)) s
callback-Shows (Callback.did_open_l2cap_channel r) s =
    answered-Shows Slot.l2cap 0 (Update.channel (Callbacks.convert r)) s

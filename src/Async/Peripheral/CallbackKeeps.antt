-- ===== src/Async/Peripheral/CallbackKeeps.antt =====
-- What a callback of corebluetooth-async/src/peripheral.rs leaves alone: the sender that waits in a
-- slot that it does not answer.
use corebluetooth_rs.Prelude.{
  ℕ, ◌≡◌, ◌≢◌, refl, ◌∙◌, Option, none, some, done, ◌>>=◌, ok, err, Ensures, Ensures-mono,
  Bool-cases, Option-cases, inl, inr, ◌==◌, arith,
}
use mathlib.Core.Path.{subst}
use corebluetooth_rs.Prelude.Bytes.{Bytes}
use corebluetooth_rs.Prelude.HashMap.{HashMap, get}
use corebluetooth_rs.Async.Oneshot.{get-register, get-resolve_ne, register, resolve, OneshotMap}
use corebluetooth_rs.Async.Peripheral.Callbacks
use corebluetooth_rs.Async.Peripheral.Run.{Callback, callback, call}
use corebluetooth_rs.Async.Peripheral.Slots.{Slot, waiter, Answers, Touches}
use corebluetooth_rs.Async.Peripheral.State.{State, Update, CbResult}
use corebluetooth_rs.Async.RefCell
use corebluetooth_rs.Async.RefCell.{RefCell}
use corebluetooth_rs.Async.Trace.{Trace}

abbrev pub Keeps : Slot → ℕ → State → State → Type 0
Keeps slot k s t = waiter slot k t ≡ waiter slot k s

-- The trace and the broadcast channels of the characteristics are no slot.
pub indifferent :
    (slot : Slot) (k : ℕ) (s : State) (cell : RefCell (HashMap ℕ)) (trace : Trace Update)
    → Keeps slot k s (record s { characteristic_value_updates = cell; trace = trace })
indifferent Slot.included_services k s cell trace = refl
indifferent _ k s cell trace = refl

-- Another object's request or answer, in the slot's own map.
pub other_key : (P : ℕ → Type 0) (j k : ℕ) → P j → ¬ P k → j ≢ k
other_key P j k p n e = n (subst P e p)

pub get-register_ne :
    (j k : ℕ) (map : OneshotMap) (t : Trace Update) → j ≢ k → get k (register j map t).0 ≡ get k map
get-register_ne j k map t h = ground (arith, get-register j k map t)

deliver-Keeps :
    (slot : Slot) (k j sender : ℕ) (r : CbResult (Unit {0})) (v : Option Bytes) (n : ℕ) (s : State)
    → Ensures (Keeps slot k s) (Callbacks.deliver_value j sender r v n s)
unfolding Callbacks.deliver_value
deliver-Keeps slot k j sender (ok u) none n s = tt
deliver-Keeps slot k j sender (ok u) (some bytes) n s = elim (Bool-cases (n == 0)) [
  | inl e ↦ elim (Bool-cases (s.characteristic_value_updates.readers == 0)) [
    | inl f ↦ rw (e, f) (indifferent slot k s _ s.trace)
    | inr f ↦ rw (e, f) tt
  ]
  | inr e ↦ rw e (indifferent slot k s _ _)
]
deliver-Keeps slot k j sender (err x) v n s = elim (Bool-cases (n == 0)) [
  | inl e ↦ elim (Bool-cases (s.characteristic_value_updates.readers == 0)) [
    | inl f ↦ rw (e, f) (indifferent slot k s _ s.trace)
    | inr f ↦ rw (e, f) tt
  ]
  | inr e ↦ rw e (indifferent slot k s _ _)
]

value-Keeps :
    (slot : Slot) (k j : ℕ) (r : CbResult (Unit {0})) (v : Option Bytes) (n : ℕ) (s : State)
    → Ensures (Keeps slot k s) (Callbacks.did_update_value_for_characteristic j r v n s)
unfolding Callbacks.did_update_value_for_characteristic
value-Keeps slot k j r v n s = elim (Option-cases (get j s.characteristic_value_updates.value)) [
  | inl e ↦ rw (e, Callbacks.did_update_value_for_characteristic) refl
  | inr (sender, e) ↦
      let borrowed = record s {
        characteristic_value_updates = RefCell.borrow s.characteristic_value_updates;
      } in
      rw (e, Callbacks.did_update_value_for_characteristic)
        (Ensures-mono (Keeps slot k borrowed) (Keeps slot k s)
          (Callbacks.deliver_value j sender r v n borrowed)
          (deliver-Keeps slot k j sender r v n borrowed)
          (λ t kept. kept ∙ indifferent slot k s borrowed.characteristic_value_updates s.trace))
]

descriptor_found :
    (slot : Slot) (k j : ℕ) (r : CbResult (Unit {0})) (v : Option Bytes) (s : State)
    → ¬ Touches (callback (Callback.did_update_value_for_descriptor j r v)) slot k
    → Ensures (Keeps slot k s) (do
      update ← Callbacks.read_value r v
      let (map, trace) =
          resolve j (Update.bytes (Callbacks.convert update)) s.descriptor_value_updates s.trace
      done (record s { descriptor_value_updates = map; trace = trace }))
descriptor_found slot k j (ok u) none s h = tt
descriptor_found Slot.descriptor_value k j (ok u) (some bytes) s h = get-resolve_ne j k _ _ _ (
    other_key
      (λ x.
        Touches (callback (Callback.did_update_value_for_descriptor j (ok u) (some bytes)))
          Slot.descriptor_value x)
      j k (Touches.answers (Answers.value_read j u bytes)) h)
descriptor_found _ k j (ok u) (some bytes) s h = refl
descriptor_found Slot.descriptor_value k j (err x) v s h = get-resolve_ne j k _ _ _ (
    other_key
      (λ y.
        Touches (callback (Callback.did_update_value_for_descriptor j (err x) v))
          Slot.descriptor_value y)
      j k (Touches.answers (Answers.value_failed j x v)) h)
descriptor_found _ k j (err x) v s h = refl

descriptor-Keeps :
    (slot : Slot) (k j : ℕ) (r : CbResult (Unit {0})) (v : Option Bytes) (s : State)
    → ¬ Touches (callback (Callback.did_update_value_for_descriptor j r v)) slot k
    → Ensures (Keeps slot k s) (Callbacks.did_update_value_for_descriptor j r v s)
unfolding Callbacks.did_update_value_for_descriptor
descriptor-Keeps slot k j r v s h = elim (Option-cases (get j s.descriptor_value_updates)) [
  | inl e ↦ rw (e, Callbacks.did_update_value_for_descriptor) refl
  | inr (sender, e) ↦
      rw (e, Callbacks.did_update_value_for_descriptor) (descriptor_found slot k j r v s h)
]

pub callback-Keeps :
    (c : Callback) (slot : Slot) (k : ℕ) (s : State)
    → ¬ Touches (callback c) slot k
    → Ensures (Keeps slot k s) (call c s)
unfolding call Callbacks.did_update_name Callbacks.did_modify_services Callbacks.did_read_rssi
    Callbacks.did_discover_services Callbacks.is_ready_to_send_write_without_response
    Callbacks.did_open_l2cap_channel Callbacks.did_discover_included_services
    Callbacks.did_discover_characteristics Callbacks.did_write_value_for_characteristic
    Callbacks.did_update_notification_state_for_characteristic
    Callbacks.did_discover_descriptors_for_characteristic Callbacks.did_write_value_for_descriptor
callback-Keeps (Callback.did_update_name x) slot k s h =
    indifferent slot k s s.characteristic_value_updates (Callbacks.did_update_name x s).trace
callback-Keeps (Callback.did_modify_services x) slot k s h =
    indifferent slot k s s.characteristic_value_updates (Callbacks.did_modify_services x s).trace
callback-Keeps (Callback.did_read_rssi x) slot k s h =
    indifferent slot k s s.characteristic_value_updates (Callbacks.did_read_rssi x s).trace
callback-Keeps (Callback.did_discover_services x) slot k s h =
    indifferent slot k s s.characteristic_value_updates (Callbacks.did_discover_services x s).trace
callback-Keeps Callback.is_ready_to_send_write_without_response slot k s h =
    indifferent slot k s s.characteristic_value_updates
      (Callbacks.is_ready_to_send_write_without_response s).trace
callback-Keeps (Callback.did_discover_included_services j r) Slot.included_services k s h =
    get-resolve_ne j k _ _ _ (
      other_key
        (λ x.
          Touches (callback (Callback.did_discover_included_services j r)) Slot.included_services x)
        j k (Touches.answers (Answers.included_services j r)) h)
callback-Keeps (Callback.did_discover_included_services j r) _ k s h = refl
callback-Keeps (Callback.did_discover_characteristics j r) Slot.characteristics k s h =
    get-resolve_ne j k _ _ _ (
      other_key
        (λ x. Touches (callback (Callback.did_discover_characteristics j r)) Slot.characteristics x)
        j k (Touches.answers (Answers.characteristics j r)) h)
callback-Keeps (Callback.did_discover_characteristics j r) _ k s h = refl
callback-Keeps (Callback.did_write_value_for_characteristic j r) Slot.characteristic_write k s h =
    get-resolve_ne j k _ _ _ (
      other_key
        (λ x.
          Touches (callback (Callback.did_write_value_for_characteristic j r))
            Slot.characteristic_write x)
        j k (Touches.answers (Answers.characteristic_write j r)) h)
callback-Keeps (Callback.did_write_value_for_characteristic j r) _ k s h = refl
callback-Keeps (Callback.did_update_notification_state j r b) Slot.notification k s h =
    get-resolve_ne j k _ _ _ (
      other_key
        (λ x. Touches (callback (Callback.did_update_notification_state j r b)) Slot.notification x)
        j k (Touches.answers (Answers.notification j r b)) h)
callback-Keeps (Callback.did_update_notification_state j r b) _ k s h = refl
callback-Keeps (Callback.did_discover_descriptors j r) Slot.descriptors k s h =
    get-resolve_ne j k _ _ _ (
      other_key (λ x. Touches (callback (Callback.did_discover_descriptors j r)) Slot.descriptors x)
        j k (Touches.answers (Answers.descriptors j r)) h)
callback-Keeps (Callback.did_discover_descriptors j r) _ k s h = refl
callback-Keeps (Callback.did_write_value_for_descriptor j r) Slot.descriptor_write k s h =
    get-resolve_ne j k _ _ _ (
      other_key
        (λ x.
          Touches (callback (Callback.did_write_value_for_descriptor j r)) Slot.descriptor_write x)
        j k (Touches.answers (Answers.descriptor_write j r)) h)
callback-Keeps (Callback.did_write_value_for_descriptor j r) _ k s h = refl
callback-Keeps (Callback.did_update_value_for_characteristic j r v n) slot k s h =
    value-Keeps slot k j r v n s
callback-Keeps (Callback.did_update_value_for_descriptor j r v) slot k s h =
    descriptor-Keeps slot k j r v s h
callback-Keeps (Callback.did_open_l2cap_channel r) Slot.l2cap k s h =
    absurd (h (Touches.answers (Answers.l2cap k r)))
callback-Keeps (Callback.did_open_l2cap_channel r) _ k s h = refl

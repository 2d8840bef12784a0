-- ===== src/Async/Peripheral/Spoken.antt =====
-- What each callback and request of corebluetooth-async/src/peripheral.rs sends through the
-- broadcast channels.
use mathlib.Core.Path.{subst}
use corebluetooth_rs.Prelude.{
  ℕ, ◌≤◌, ◌≡◌, refl, ◌∙◌, true, false, Option, none, some, [], ◌∷◌, done, ◌>>=◌, ok, err, Ensures,
  Ensures-mono, Bool-cases, Option-cases, inl, inr, ◌==◌, arith,
}
use corebluetooth_rs.Prelude.Bytes.{Bytes}
use corebluetooth_rs.Prelude.HashMap.{HashMap, is_id, get, insert, remove}
use corebluetooth_rs.Async.Oneshot.{resolve}
use corebluetooth_rs.Async.Peripheral.Callbacks
use corebluetooth_rs.Async.Peripheral.Run.{Callback, callback, call}
use corebluetooth_rs.Async.Peripheral.Said.{
  Grows, Goes, calm, published, aside, silence, resolve-Grows, resolve_cell-Grows,
}
use corebluetooth_rs.Async.Peripheral.State.{State, Update, CbResult}
use corebluetooth_rs.Async.Peripheral.Topics.{Topic, number, says, AllLater, IsFixed, channel_of}
use corebluetooth_rs.Async.RefCell
use corebluetooth_rs.Async.RefCell.{RefCell}
use corebluetooth_rs.Async.Trace.{Trace}

-- A state with another trace, or other maps of oneshot senders, has the same topics.
pub same_topics :
    (s t : State)
    → t.name_updates ≡ s.name_updates
    → t.services_changed ≡ s.services_changed
    → t.rssi_updates ≡ s.rssi_updates
    → t.service_discovery ≡ s.service_discovery
    → t.ready_to_send_write_without_response ≡ s.ready_to_send_write_without_response
    → (topic : Topic) → channel_of topic t ≡ channel_of topic s
same_topics s t a b c d e Topic.name = a
same_topics s t a b c d e Topic.services = b
same_topics s t a b c d e Topic.rssi = c
same_topics s t a b c d e Topic.discovery = d
same_topics s t a b c d e Topic.ready_to_send = e

pub same_trace : (t : Trace Update) → Grows silence t t
same_trace t = record { new = []; calls = refl; counted = λ topic. refl; next = omega arith }

-- The channels of the characteristics.
pub get-AllLater :
    (k channel : ℕ) (map : HashMap ℕ) → AllLater map → get k map ≡ some channel → 5 ≤ channel
unfolding get
get-AllLater k channel [] h e = absurd (cc)
get-AllLater k channel ((j, c) ∷ map) h e = elim (Bool-cases (j == k)) [
  | inl f ↦ subst (λ x. 5 ≤ x) (here f) h.0
  | inr f ↦ get-AllLater k channel map h.1 (there f)
]
  where
    here : (j == k) ≡ true → c ≡ channel
    here f = ground (arith, e)

    there : (j == k) ≡ false → get k map ≡ some channel
    there f = ground (arith, e)

pub insert-AllLater :
    (k channel : ℕ) (map : HashMap ℕ) → AllLater map → 5 ≤ channel → AllLater (insert k channel map)
unfolding insert
insert-AllLater k channel [] h le = (le, tt)
insert-AllLater k channel ((j, c) ∷ map) h le = elim (Bool-cases (j == k)) [
  | inl f ↦ rw f (le, h.1)
  | inr f ↦ rw f (h.0, insert-AllLater k channel map h.1 le)
]

remove-AllLater : (k : ℕ) (map : HashMap ℕ) → AllLater map → AllLater (remove k map)
unfolding remove
remove-AllLater k [] h = tt
remove-AllLater k ((j, c) ∷ map) h = elim (Bool-cases (j == k)) [
  | inl f ↦ rw f h.1
  | inr f ↦ rw f (h.0, remove-AllLater k map h.1)
]

-- A channel of a characteristic is no topic's.
other_topic : (channel : ℕ) (topic : Topic) → 5 ≤ channel → is_id channel (number topic) ≡ 0
other_topic channel Topic.name le = ground arith
other_topic channel Topic.services le = ground arith
other_topic channel Topic.rssi le = ground arith
other_topic channel Topic.discovery le = ground arith
other_topic channel Topic.ready_to_send le = ground arith

-- The channels of the characteristics and the trace change.
pub recelled :
    (s : State) (cell : RefCell (HashMap ℕ)) (trace : Trace Update)
    → IsFixed s
    → AllLater cell.value
    → Grows silence s.trace trace
    → Goes silence s (record s { characteristic_value_updates = cell; trace = trace })
recelled s cell trace h later grows = record {
  fixed = record {
    topics = λ topic.
        same_topics s (record s { characteristic_value_updates = cell; trace = trace }) refl refl
          refl refl refl topic
        ∙ h.topics topic;
    later = later;
    next = omega (arith, h.next, grows.next);
  };
  grows = grows;
}

deliver-Goes :
    (j sender : ℕ) (r : CbResult (Unit {0})) (v : Option Bytes) (n : ℕ) (s : State)
    → IsFixed s
    → 5 ≤ sender
    → Ensures (Goes silence s) (Callbacks.deliver_value j sender r v n s)
unfolding Callbacks.deliver_value
deliver-Goes j sender (ok u) none n s h le = tt
deliver-Goes j sender (ok u) (some bytes) n s h le = elim (Bool-cases (n == 0)) [
  | inl e ↦ elim (Bool-cases (s.characteristic_value_updates.readers == 0)) [
    | inl f ↦ rw (e, f) (recelled s _ s.trace h (remove-AllLater j _ h.later) (same_trace s.trace))
    | inr f ↦ rw (e, f) tt
  ]
  | inr e ↦ rw e (recelled s _ _ h h.later (aside _ s.trace (λ topic. other_topic sender topic le)))
]
deliver-Goes j sender (err x) v n s h le = elim (Bool-cases (n == 0)) [
  | inl e ↦ elim (Bool-cases (s.characteristic_value_updates.readers == 0)) [
    | inl f ↦ rw (e, f) (recelled s _ s.trace h (remove-AllLater j _ h.later) (same_trace s.trace))
    | inr f ↦ rw (e, f) tt
  ]
  | inr e ↦ rw e (recelled s _ _ h h.later (aside _ s.trace (λ topic. other_topic sender topic le)))
]

value-Goes :
    (j : ℕ) (r : CbResult (Unit {0})) (v : Option Bytes) (n : ℕ) (s : State)
    → IsFixed s
    → Ensures (Goes silence s) (Callbacks.did_update_value_for_characteristic j r v n s)
unfolding Callbacks.did_update_value_for_characteristic
value-Goes j r v n s h = elim (Option-cases (get j s.characteristic_value_updates.value)) [
  | inl e ↦
      rw (e, Callbacks.did_update_value_for_characteristic)
        (recelled s s.characteristic_value_updates s.trace h h.later (same_trace s.trace))
  | inr (sender, e) ↦
      let borrowed = record s {
        characteristic_value_updates = RefCell.borrow s.characteristic_value_updates;
      } in
      rw (e, Callbacks.did_update_value_for_characteristic)
        (Ensures-mono (Goes silence borrowed) (Goes silence s)
          (Callbacks.deliver_value j sender r v n borrowed)
          (deliver-Goes j sender r v n borrowed
            (recelled s borrowed.characteristic_value_updates s.trace h h.later
              (same_trace s.trace)).fixed
            (get-AllLater j sender s.characteristic_value_updates.value h.later e))
          (λ t goes. record { fixed = goes.fixed; grows = goes.grows }))
]

descriptor-Goes :
    (k : ℕ) (r : CbResult (Unit {0})) (v : Option Bytes) (s : State)
    → IsFixed s
    → Ensures (Goes silence s) (Callbacks.did_update_value_for_descriptor k r v s)
unfolding Callbacks.did_update_value_for_descriptor
descriptor-Goes k r v s h = elim (Option-cases (get k s.descriptor_value_updates)) [
  | inl e ↦
      rw (e, Callbacks.did_update_value_for_descriptor)
        (recelled s s.characteristic_value_updates s.trace h h.later (same_trace s.trace))
  | inr (sender, e) ↦ rw (e, Callbacks.did_update_value_for_descriptor) (found r v)
]
  where
    found :
        (r : CbResult (Unit {0})) (v : Option Bytes)
        → Ensures (Goes silence s) (do
          update ← Callbacks.read_value r v
          let (map, trace) =
              resolve k (Update.bytes (Callbacks.convert update)) s.descriptor_value_updates s.trace
          done (record s { descriptor_value_updates = map; trace = trace }))
    found (ok u) none = tt
    found (ok u) (some bytes) =
        calm _ h (same_topics s _ refl refl refl refl refl) refl
          (resolve-Grows k _ s.descriptor_value_updates s.trace)
    found (err x) v =
        calm _ h (same_topics s _ refl refl refl refl refl) refl
          (resolve-Grows k _ s.descriptor_value_updates s.trace)

pub callback-Goes :
    (c : Callback) (s : State) → IsFixed s → Ensures (Goes (says (callback c)) s) (call c s)
unfolding call Callbacks.did_update_name Callbacks.did_modify_services Callbacks.did_read_rssi
    Callbacks.did_discover_services Callbacks.is_ready_to_send_write_without_response
    Callbacks.did_open_l2cap_channel Callbacks.did_discover_included_services
    Callbacks.did_discover_characteristics Callbacks.did_write_value_for_characteristic
    Callbacks.did_update_notification_state_for_characteristic
    Callbacks.did_discover_descriptors_for_characteristic Callbacks.did_write_value_for_descriptor
callback-Goes (Callback.did_update_name n) s h =
    calm (Callbacks.did_update_name n s) h (same_topics s _ refl refl refl refl refl) refl
      (published Topic.name _ s h)
callback-Goes (Callback.did_modify_services l) s h =
    calm (Callbacks.did_modify_services l s) h (same_topics s _ refl refl refl refl refl) refl
      (published Topic.services _ s h)
callback-Goes (Callback.did_read_rssi r) s h =
    calm (Callbacks.did_read_rssi r s) h (same_topics s _ refl refl refl refl refl) refl
      (published Topic.rssi _ s h)
callback-Goes (Callback.did_discover_services r) s h =
    calm (Callbacks.did_discover_services r s) h (same_topics s _ refl refl refl refl refl) refl
      (published Topic.discovery _ s h)
callback-Goes Callback.is_ready_to_send_write_without_response s h =
    calm (Callbacks.is_ready_to_send_write_without_response s) h
      (same_topics s _ refl refl refl refl refl) refl (published Topic.ready_to_send _ s h)
callback-Goes (Callback.did_discover_included_services k r) s h =
    calm (Callbacks.did_discover_included_services k r s) h
      (same_topics s _ refl refl refl refl refl) refl
      (resolve-Grows k _ s.included_service_discovery s.trace)
callback-Goes (Callback.did_discover_characteristics k r) s h =
    calm (Callbacks.did_discover_characteristics k r s) h (same_topics s _ refl refl refl refl refl)
      refl (resolve-Grows k _ s.characteristic_discovery s.trace)
callback-Goes (Callback.did_write_value_for_characteristic k r) s h =
    calm (Callbacks.did_write_value_for_characteristic k r s) h
      (same_topics s _ refl refl refl refl refl) refl
      (resolve-Grows k _ s.characteristic_writes s.trace)
callback-Goes (Callback.did_update_notification_state k r b) s h =
    calm (Callbacks.did_update_notification_state_for_characteristic k r b s) h
      (same_topics s _ refl refl refl refl refl) refl
      (resolve-Grows k _ s.notification_updates s.trace)
callback-Goes (Callback.did_discover_descriptors k r) s h =
    calm (Callbacks.did_discover_descriptors_for_characteristic k r s) h
      (same_topics s _ refl refl refl refl refl) refl
      (resolve-Grows k _ s.descriptor_discovery s.trace)
callback-Goes (Callback.did_write_value_for_descriptor k r) s h =
    calm (Callbacks.did_write_value_for_descriptor k r s) h
      (same_topics s _ refl refl refl refl refl) refl
      (resolve-Grows k _ s.descriptor_writes s.trace)
callback-Goes (Callback.did_open_l2cap_channel r) s h =
    calm (Callbacks.did_open_l2cap_channel r s) h (same_topics s _ refl refl refl refl refl) refl
      (resolve_cell-Grows _ s.l2cap_channel_opened s.trace)
callback-Goes (Callback.did_update_value_for_characteristic k r v n) s h = value-Goes k r v n s h
callback-Goes (Callback.did_update_value_for_descriptor k r v) s h = descriptor-Goes k r v s h

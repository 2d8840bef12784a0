-- ===== src/Async/Peripheral/Delivered.antt =====
-- Each value of a characteristic goes through its channel, and nothing else does: the callbacks of
-- corebluetooth-async/src/peripheral.rs.
use corebluetooth_rs.Prelude.{
  ℕ, ◌≤◌, ◌<◌, ◌≡◌, refl, ap, sym, ◌∙◌, true, false, Option, none, some, [], ◌∷◌, ◌++◌, done, ◌>>=◌,
  ok, err, Ensures, Bool-cases, Option-cases, inl, inr, ◌==◌, if◌then◌else◌, arith,
}
use corebluetooth_rs.Prelude.Bytes.{Bytes}
use corebluetooth_rs.Prelude.HashMap.{get}
use corebluetooth_rs.Async.Oneshot.{resolve}
use corebluetooth_rs.Async.Peripheral.Account.{alive}
use corebluetooth_rs.Async.Peripheral.Callbacks
use corebluetooth_rs.Async.Peripheral.Run.{Callback, callback, call}
use corebluetooth_rs.Async.Peripheral.State.{State, Update, CbResult}
use corebluetooth_rs.Async.Peripheral.Topics.{Topic, number, IsFixed, channel_of}
use corebluetooth_rs.Async.Peripheral.Values.{
  values, messages, IsApart, Hears, Silent, no_news, quiet, unchanged, resolve-Silent,
  resolve_cell-Silent,
}
use corebluetooth_rs.Async.RefCell
use corebluetooth_rs.Async.RefCell.{RefCell}
use corebluetooth_rs.Async.Trace.{Call, add}

-- A message through the channel of a topic.
published-Silent :
    (own : Topic) (v : Update) (s : State)
    → IsFixed s
    → Silent s.trace (add (Call.try_broadcast (channel_of own s) v) s.trace)
published-Silent own v s h = record {
  calls = λ channel le. rw (other channel le) refl;
  next = omega arith;
}
  where
    small : (own : Topic) → number own < 5
    small Topic.name = omega arith
    small Topic.services = omega arith
    small Topic.rssi = omega arith
    small Topic.discovery = omega arith
    small Topic.ready_to_send = omega arith

    other : (channel : ℕ) → 5 ≤ channel → (channel_of own s == channel) ≡ false
    other channel le = ground (arith, h.topics own, small own)

-- The value of a characteristic with a channel that has a receiver left.
sent-Hears :
    (j sender : ℕ) (v : Update) (s : State)
    → IsFixed s
    → IsApart s
    → get j s.characteristic_value_updates.value ≡ some sender
    → Hears
        (λ k. if j == k then v ∷ [] else [])
        s
        (record s {
          characteristic_value_updates =
              RefCell.release (RefCell.borrow s.characteristic_value_updates);
          trace = add (Call.try_broadcast sender v) s.trace;
        })
sent-Hears j sender v s fixed apart at = record {
  apart = record { old = apart.old; apart = apart.apart };
  kept = λ k channel h. h;
  heard = λ k channel h. heard k channel h;
}
  where
    heard :
        (k channel : ℕ)
        → get k s.characteristic_value_updates.value ≡ some channel
        → messages channel (Call.try_broadcast sender v ∷ s.trace.calls)
          ≡ (if j == k then v ∷ [] else []) ++ messages channel s.trace.calls
    heard k channel h = elim (Bool-cases (j == k)) [
      | inl e ↦
          let same : j ≡ k = ground arith in
          let one : some sender ≡ some channel = sym at ∙ ap get_at same ∙ h in
          let own : (sender == channel) ≡ true = ground (arith, one) in rw (e, own) refl
      | inr e ↦ elim (Bool-cases (sender == channel)) [
        | inl f ↦
            let same : sender ≡ channel = ground arith in
            let both : j ≡ k = apart.apart j k channel (at ∙ ap some same) h in
            absurd (ground (arith, both))
        | inr f ↦ rw (e, f) refl
      ]
    ]
      where
        get_at : ℕ → Option ℕ
        get_at i = get i s.characteristic_value_updates.value

deliver-Hears :
    (j sender : ℕ) (r : CbResult (Unit {0})) (v : Option Bytes) (n : ℕ) (s : State)
    → IsFixed s
    → IsApart s
    → get j s.characteristic_value_updates.value ≡ some sender
    → Ensures (Hears (values (callback (Callback.did_update_value_for_characteristic j r v n))) s) (
        Callbacks.deliver_value j sender r v n (record s {
          characteristic_value_updates = RefCell.borrow s.characteristic_value_updates;
        }))
unfolding Callbacks.deliver_value
deliver-Hears j sender (ok u) none n s fixed apart at = tt
deliver-Hears j sender (ok u) (some bytes) n s fixed apart at = elim (Bool-cases (n == 0)) [
  | inl e ↦ rw (e, alive s.characteristic_value_updates.readers) tt
  | inr e ↦ rw e (sent-Hears j sender (Update.bytes (ok bytes)) s fixed apart at)
]
deliver-Hears j sender (err x) v n s fixed apart at = elim (Bool-cases (n == 0)) [
  | inl e ↦ rw (e, alive s.characteristic_value_updates.readers) tt
  | inr e ↦ rw e (sent-Hears j sender (Update.bytes (Callbacks.convert (err x))) s fixed apart at)
]

value-Hears :
    (j : ℕ) (r : CbResult (Unit {0})) (v : Option Bytes) (n : ℕ) (s : State)
    → IsFixed s
    → IsApart s
    → Ensures
        (Hears (values (callback (Callback.did_update_value_for_characteristic j r v n))) s)
        (Callbacks.did_update_value_for_characteristic j r v n s)
unfolding Callbacks.did_update_value_for_characteristic
value-Hears j r v n s fixed apart =
    elim (Option-cases (get j s.characteristic_value_updates.value)) [
      | inl e ↦
          rw (e, Callbacks.did_update_value_for_characteristic)
            (record {
              apart = apart;
              kept = λ k channel h. h;
              heard = λ k channel h. lost k h e r v;
            })
      | inr (sender, e) ↦
          rw (e, Callbacks.did_update_value_for_characteristic)
            (deliver-Hears j sender r v n s fixed apart e)
    ]
  where
    other :
        (k : ℕ) {channel : ℕ}
        → get k s.characteristic_value_updates.value ≡ some channel
        → get j s.characteristic_value_updates.value ≡ none
        → (j == k) ≡ true
        → ⊥
    other k {channel} h e f =
        let same : j ≡ k = ground arith in
        absurd (cc (e, h, ap (λ i. get i s.characteristic_value_updates.value) same))

    lost :
        (k : ℕ) {channel : ℕ}
        → get k s.characteristic_value_updates.value ≡ some channel
        → get j s.characteristic_value_updates.value ≡ none
        → (r : CbResult (Unit {0})) (v : Option Bytes)
        → messages channel s.trace.calls
          ≡ values (callback (Callback.did_update_value_for_characteristic j r v n)) k
            ++ messages channel s.trace.calls
    lost k h e (ok u) none = refl
    lost k h e (ok u) (some bytes) = elim (Bool-cases (j == k)) [
      | inl f ↦ absurd (other k h e f)
      | inr f ↦ rw f refl
    ]
    lost k h e (err x) v = elim (Bool-cases (j == k)) [
      | inl f ↦ absurd (other k h e f)
      | inr f ↦ rw f refl
    ]

descriptor-Hears :
    (k : ℕ) (r : CbResult (Unit {0})) (v : Option Bytes) (s : State)
    → IsFixed s
    → IsApart s
    → Ensures (Hears no_news s) (Callbacks.did_update_value_for_descriptor k r v s)
unfolding Callbacks.did_update_value_for_descriptor
descriptor-Hears k r v s f a = elim (Option-cases (get k s.descriptor_value_updates)) [
  | inl e ↦ rw (e, Callbacks.did_update_value_for_descriptor) (quiet s f a refl (unchanged s.trace))
  | inr (sender, e) ↦ rw (e, Callbacks.did_update_value_for_descriptor) (found r v)
]
  where
    found :
        (r : CbResult (Unit {0})) (v : Option Bytes)
        → Ensures (Hears no_news s) (do
          update ← Callbacks.read_value r v
          let (map, trace) =
              resolve k (Update.bytes (Callbacks.convert update)) s.descriptor_value_updates s.trace
          done (record s { descriptor_value_updates = map; trace = trace }))
    found (ok u) none = tt
    found (ok u) (some bytes) =
        quiet _ f a refl (resolve-Silent k _ s.descriptor_value_updates s.trace)
    found (err x) v = quiet _ f a refl (resolve-Silent k _ s.descriptor_value_updates s.trace)

pub callback-Hears :
    (c : Callback) (s : State)
    → IsFixed s
    → IsApart s
    → Ensures (Hears (values (callback c)) s) (call c s)
unfolding call Callbacks.did_update_name Callbacks.did_modify_services Callbacks.did_read_rssi
    Callbacks.did_discover_services Callbacks.is_ready_to_send_write_without_response
    Callbacks.did_open_l2cap_channel Callbacks.did_discover_included_services
    Callbacks.did_discover_characteristics Callbacks.did_write_value_for_characteristic
    Callbacks.did_update_notification_state_for_characteristic
    Callbacks.did_discover_descriptors_for_characteristic Callbacks.did_write_value_for_descriptor
callback-Hears (Callback.did_update_name n) s f a =
    quiet (Callbacks.did_update_name n s) f a refl (published-Silent Topic.name _ s f)
callback-Hears (Callback.did_modify_services l) s f a =
    quiet (Callbacks.did_modify_services l s) f a refl (published-Silent Topic.services _ s f)
callback-Hears (Callback.did_read_rssi r) s f a =
    quiet (Callbacks.did_read_rssi r s) f a refl (published-Silent Topic.rssi _ s f)
callback-Hears (Callback.did_discover_services r) s f a =
    quiet (Callbacks.did_discover_services r s) f a refl (published-Silent Topic.discovery _ s f)
callback-Hears Callback.is_ready_to_send_write_without_response s f a =
    quiet (Callbacks.is_ready_to_send_write_without_response s) f a refl
      (published-Silent Topic.ready_to_send _ s f)
callback-Hears (Callback.did_discover_included_services k r) s f a =
    quiet (Callbacks.did_discover_included_services k r s) f a refl
      (resolve-Silent k _ s.included_service_discovery s.trace)
callback-Hears (Callback.did_discover_characteristics k r) s f a =
    quiet (Callbacks.did_discover_characteristics k r s) f a refl
      (resolve-Silent k _ s.characteristic_discovery s.trace)
callback-Hears (Callback.did_write_value_for_characteristic k r) s f a =
    quiet (Callbacks.did_write_value_for_characteristic k r s) f a refl
      (resolve-Silent k _ s.characteristic_writes s.trace)
callback-Hears (Callback.did_update_notification_state k r b) s f a =
    quiet (Callbacks.did_update_notification_state_for_characteristic k r b s) f a refl
      (resolve-Silent k _ s.notification_updates s.trace)
callback-Hears (Callback.did_discover_descriptors k r) s f a =
    quiet (Callbacks.did_discover_descriptors_for_characteristic k r s) f a refl
      (resolve-Silent k _ s.descriptor_discovery s.trace)
callback-Hears (Callback.did_write_value_for_descriptor k r) s f a =
    quiet (Callbacks.did_write_value_for_descriptor k r s) f a refl
      (resolve-Silent k _ s.descriptor_writes s.trace)
callback-Hears (Callback.did_open_l2cap_channel r) s f a =
    quiet (Callbacks.did_open_l2cap_channel r s) f a refl
      (resolve_cell-Silent _ s.l2cap_channel_opened s.trace)
callback-Hears (Callback.did_update_value_for_characteristic k r v n) s f a =
    value-Hears k r v n s f a
callback-Hears (Callback.did_update_value_for_descriptor k r v) s f a = descriptor-Hears k r v s f a

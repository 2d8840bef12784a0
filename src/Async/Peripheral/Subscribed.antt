-- ===== src/Async/Peripheral/Subscribed.antt =====
-- What a subscriber to the values of a characteristic gets, whatever other callbacks and requests
-- of corebluetooth-async/src/peripheral.rs come.
use corebluetooth_rs.Prelude.{
  ℕ, ◌+◌, ◌<◌, ◌≡◌, refl, ap, sym, ◌∙◌, true, false, none, some, done, Ensures, Ensures->>=,
  Bool-cases, Option-cases, inl, inr, ◌==◌, arith, ◌⊎◌, if◌then◌else◌,
}
use corebluetooth_rs.Prelude.HashMap.{HashMap, get, insert, get-insert}
use corebluetooth_rs.Async.Peripheral.Requests
use corebluetooth_rs.Async.Peripheral.Run.{Request, request}
use corebluetooth_rs.Async.Peripheral.State.{State, Update}
use corebluetooth_rs.Async.Peripheral.Topics.{IsFixed}
use corebluetooth_rs.Async.Peripheral.Values.{
  IsApart, Hears, Silent, no_news, quiet, register-Silent, register_cell-Silent, unchanged,
}
use corebluetooth_rs.Bluetooth.Messages.{Message}
use corebluetooth_rs.Bluetooth.Peripheral
use corebluetooth_rs.Async.Trace.{Call, Trace, add, broadcast}

-- A channel that is opened for a characteristic without one.
module _ (j : ℕ) (s : State) (a : IsApart s)
    (e : get j s.characteristic_value_updates.value ≡ none) where
  abbrev grown : HashMap ℕ
  grown = insert j s.trace.next_broadcast s.characteristic_value_updates.value

  fresh :
      (k channel : ℕ)
      → get k grown ≡ some channel
      → ((j ≡ k) × (channel ≡ s.trace.next_broadcast))
        ⊎ (get k s.characteristic_value_updates.value ≡ some channel)
  fresh k channel h = elim (Bool-cases (j == k)) [
    | inl f ↦
        let new : some s.trace.next_broadcast ≡ some channel = sym (found f) ∙ h in
        inl (ground arith, ground (arith, new))
    | inr f ↦ inr (sym (other f) ∙ h)
  ]
    where
      at : get k grown ≡ (
          if j == k
          then some s.trace.next_broadcast
          else get k s.characteristic_value_updates.value)
      at = get-insert j k s.trace.next_broadcast s.characteristic_value_updates.value

      found : (j == k) ≡ true → get k grown ≡ some s.trace.next_broadcast
      found f = at ∙ rw f refl

      other : (j == k) ≡ false → get k grown ≡ get k s.characteristic_value_updates.value
      other f = at ∙ rw f refl

  fresh_old : (k channel : ℕ) → get k grown ≡ some channel → channel < s.trace.next_broadcast + 1
  fresh_old k channel h = elim (fresh k channel h) [
    | inl new ↦ omega (arith, new.1)
    | inr there ↦ omega (arith, a.old k channel there)
  ]

  fresh_apart : (k l channel : ℕ) → get k grown ≡ some channel → get l grown ≡ some channel → k ≡ l
  fresh_apart k l channel h g = elim (fresh k channel h) [
    | inl new ↦ elim (fresh l channel g) [
      | inl too ↦ omega (arith, new.0, too.0)
      | inr there ↦ omega (arith, new.1, a.old l channel there)
    ]
    | inr there ↦ elim (fresh l channel g) [
      | inl new ↦ omega (arith, new.1, a.old k channel there)
      | inr too ↦ a.apart k l channel there too
    ]
  ]

  fresh_kept :
      (k channel : ℕ)
      → get k s.characteristic_value_updates.value ≡ some channel
      → get k grown ≡ some channel
  fresh_kept k channel h =
      get-insert j k s.trace.next_broadcast s.characteristic_value_updates.value
      ∙ elim (Bool-cases (j == k)) [
        | inl f ↦
            let same : j ≡ k = ground arith in
            absurd (cc (e, h, ap (λ i. get i s.characteristic_value_updates.value) same))
        | inr f ↦ rw f h
      ]

  fresh_here : get j grown ≡ some s.trace.next_broadcast
  fresh_here = get-insert j j s.trace.next_broadcast s.characteristic_value_updates.value ∙ itself j
    where
      itself :
          (n : ℕ)
          → (if n == n
              then some s.trace.next_broadcast
              else get n s.characteristic_value_updates.value)
            ≡ some s.trace.next_broadcast
      itself n = ground arith

pub subscribed-Hears :
    (j : ℕ) (s : State)
    → IsApart s
    → Ensures
        (λ r. Hears no_news s r.0 × (get j r.0.characteristic_value_updates.value ≡ some r.1))
        (Requests.characteristic_value_updates j s)
unfolding Requests.characteristic_value_updates broadcast
subscribed-Hears j s a = elim (Option-cases (get j cell.value)) [
  | inl e ↦ elim (Bool-cases (cell.readers == 0)) [
    | inl f ↦
        rw (e, f, Requests.characteristic_value_updates)
          (
            record {
              apart = record { old = fresh_old j s a e; apart = fresh_apart j s a e };
              kept = fresh_kept j s a e;
              heard = λ k channel h. refl;
            },
            fresh_here j s a e,
          )
    | inr f ↦ rw (e, f, Requests.characteristic_value_updates) tt
  ]
  | inr (sender, e) ↦ elim (Bool-cases (cell.readers == 0)) [
    | inl f ↦
        rw (e, f, Requests.characteristic_value_updates)
          (
            record {
              apart = record { old = a.old; apart = a.apart };
              kept = λ k channel h. h;
              heard = λ k channel h. refl;
            },
            e,
          )
    | inr f ↦ rw (e, f, Requests.characteristic_value_updates) tt
  ]
]
  where
    open s use {characteristic_value_updates as cell}

-- A message to CoreBluetooth is sent through no channel.
after_tell :
    (message : Message) (s : State) {t : Trace Update}
    → Silent (Requests.tell message s).trace t
    → Silent s.trace t
after_tell message s h = record { calls = h.calls; next = h.next }

subscribed-Silent : (channel : ℕ) (t : Trace Update) → Silent t (add (Call.new_receiver channel) t)
subscribed-Silent channel t = record { calls = λ c le. refl; next = omega arith }

pub request-Hears :
    (peripheral : ℕ) (r : Request) (s : State)
    → IsFixed s
    → IsApart s
    → Ensures (Hears no_news s) (request peripheral r s)
unfolding request Requests.name_updates Requests.services_changed Requests.discover_services
    Requests.ready_to_send_write_without_response Requests.read_rssi
    Requests.read_characteristic_value Requests.open_l2cap_channel
    Requests.discover_included_services Requests.discover_characteristics
    Requests.discover_descriptors Requests.set_notify Requests.write_characteristic_value
    Requests.read_descriptor_value Requests.write_descriptor_value
request-Hears peripheral (Request.discover_included_services k o) s f a =
    let message = Peripheral.discover_included_services peripheral k o in
    quiet _ f a refl (
      after_tell message s
        (register-Silent k s.included_service_discovery (Requests.tell message s).trace))
request-Hears peripheral (Request.discover_characteristics k o) s f a =
    let message = Peripheral.discover_characteristics peripheral k o in
    quiet _ f a refl (
      after_tell message s
        (register-Silent k s.characteristic_discovery (Requests.tell message s).trace))
request-Hears peripheral (Request.discover_descriptors k) s f a =
    let message = Peripheral.discover_descriptors peripheral k in
    quiet _ f a refl (
      after_tell message s
        (register-Silent k s.descriptor_discovery (Requests.tell message s).trace))
request-Hears peripheral (Request.set_notify k b) s f a =
    let message = Peripheral.set_notify peripheral k b in
    quiet _ f a refl (
      after_tell message s
        (register-Silent k s.notification_updates (Requests.tell message s).trace))
request-Hears peripheral (Request.write_characteristic_value k b t) s f a =
    let message = Peripheral.write_characteristic_value peripheral k b t in
    quiet _ f a refl (
      after_tell message s
        (register-Silent k s.characteristic_writes (Requests.tell message s).trace))
request-Hears peripheral (Request.read_descriptor_value k) s f a =
    let message = Peripheral.read_descriptor_value peripheral k in
    quiet _ f a refl (
      after_tell message s
        (register-Silent k s.descriptor_value_updates (Requests.tell message s).trace))
request-Hears peripheral (Request.write_descriptor_value k b) s f a =
    let message = Peripheral.write_descriptor_value peripheral k b in
    quiet _ f a refl
      (after_tell message s (register-Silent k s.descriptor_writes (Requests.tell message s).trace))
request-Hears peripheral (Request.open_l2cap_channel psm) s f a =
    let message = Peripheral.open_l2cap_channel peripheral psm in
    quiet _ f a refl (
      after_tell message s
        (register_cell-Silent s.l2cap_channel_opened (Requests.tell message s).trace))
request-Hears peripheral Request.name_changed s f a = quiet _ f a refl (subscribed-Silent _ s.trace)
request-Hears peripheral Request.services_changed s f a =
    quiet _ f a refl (subscribed-Silent _ s.trace)
request-Hears peripheral (Request.discover_services o) s f a =
    quiet (Requests.discover_services peripheral o s).0 f a refl
      (after_tell (Peripheral.discover_services peripheral o) s (subscribed-Silent _ _))
request-Hears peripheral Request.read_rssi s f a =
    quiet (Requests.read_rssi peripheral s).0 f a refl
      (after_tell (Peripheral.read_rssi peripheral) s (subscribed-Silent _ _))
request-Hears peripheral (Request.ready_to_send_write_without_response true) s f a =
    quiet s f a refl (unchanged s.trace)
request-Hears peripheral (Request.ready_to_send_write_without_response false) s f a =
    quiet _ f a refl (subscribed-Silent _ s.trace)
request-Hears peripheral (Request.characteristic_value_updates j) s f a =
    Ensures->>= _ (Hears no_news s) (Requests.characteristic_value_updates j s) (λ r. done r.0)
      (subscribed-Hears j s a) (λ r h. h.0)
request-Hears peripheral (Request.read_characteristic_value j) s f a =
    let told = Requests.tell (Peripheral.read_characteristic_value peripheral j) s in
    Ensures->>= _ (Hears no_news s) (Requests.characteristic_value_updates j told) (λ r. done r.0)
      (subscribed-Hears j told (record { old = a.old; apart = a.apart }))
      (λ r h. record { apart = h.0.apart; kept = h.0.kept; heard = h.0.heard })

-- ===== src/Async/Peripheral/Senders.antt =====
-- What a request of corebluetooth-async/src/peripheral.rs does to the sender that waits in its slot,
-- and what the callback that answers the slot does.
use corebluetooth_rs.Prelude.{
  ℕ, ◌≤◌, ◌≡◌, refl, Option, some, List, ◌∷◌, done, ok, err, Ensures, arith, ltb, if◌then◌else◌,
}
use corebluetooth_rs.Prelude.Bytes.{Bytes}
use corebluetooth_rs.Prelude.HashMap.{get, held_by, get-held}
use corebluetooth_rs.Async.Oneshot.{
  get-register, register_found, resolve_found, register, resolve, register_cell, OneshotMap,
  resolve_cell_found, register_cell_found,
}
use corebluetooth_rs.Async.Peripheral.Callbacks
use corebluetooth_rs.Async.Peripheral.Linear.{IsLinear}
use corebluetooth_rs.Async.Peripheral.Requests
use corebluetooth_rs.Async.Peripheral.Run.{Callback, Request, call, request}
use corebluetooth_rs.Async.Peripheral.Slots.{Slot, waiter, Asks, Answers}
use corebluetooth_rs.Async.Peripheral.State.{State, Update, CbResult}
use corebluetooth_rs.Async.Trace.{Call, Trace, settled}

-- A request puts the number of the new sender into its slot.
get-register_self :
    (k : ℕ) (map : OneshotMap) (t : Trace Update) → get k (register k map t).0 ≡ some t.next
get-register_self k map t = ground (arith, get-register k k map t)

pub asked_waits :
    (peripheral : ℕ) {r : Request} {slot : Slot} {k : ℕ} (a : Asks r slot k) (s : State)
    → Ensures (λ t. waiter slot k t ≡ some s.trace.next) (request peripheral r s)
unfolding request Requests.discover_included_services Requests.discover_characteristics
    Requests.discover_descriptors Requests.read_descriptor_value Requests.write_characteristic_value
    Requests.write_descriptor_value Requests.set_notify Requests.open_l2cap_channel register_cell
asked_waits peripheral (Asks.included_services k o) s =
    get-register_self k s.included_service_discovery _
asked_waits peripheral (Asks.characteristics k o) s =
    get-register_self k s.characteristic_discovery _
asked_waits peripheral (Asks.descriptors k) s = get-register_self k s.descriptor_discovery _
asked_waits peripheral (Asks.notification k b) s = get-register_self k s.notification_updates _
asked_waits peripheral (Asks.characteristic_write k b t) s =
    get-register_self k s.characteristic_writes _
asked_waits peripheral (Asks.descriptor_value k) s =
    get-register_self k s.descriptor_value_updates _
asked_waits peripheral (Asks.descriptor_write k b) s = get-register_self k s.descriptor_writes _
asked_waits peripheral (Asks.l2cap psm k) s = refl

found_then_resolved :
    (k id : ℕ) (r : CbResult (Unit {0})) (v : Option Bytes) (update : CbResult Bytes) (s : State)
    → get k s.descriptor_value_updates ≡ some id
    → Callbacks.read_value r v ≡ done update
    → let (map, trace) =
        resolve k (Update.bytes (Callbacks.convert update)) s.descriptor_value_updates s.trace in
      Callbacks.did_update_value_for_descriptor k r v s
      ≡ done (record s { descriptor_value_updates = map; trace = trace })
unfolding Callbacks.did_update_value_for_descriptor
found_then_resolved k id r v update s w e = rw (w, e, Callbacks.did_update_value_for_descriptor)

-- A callback sends its answer to the sender that waits in its slot.
pub answered_sends :
    {c : Callback} {slot : Slot} {k : ℕ} {u : Update} (a : Answers c slot k u) (id : ℕ) (s : State)
    → waiter slot k s ≡ some id
    → (t : State) × (call c s ≡ done t) × (t.trace.calls ≡ Call.send id u ∷ s.trace.calls)
unfolding call Callbacks.did_discover_included_services Callbacks.did_discover_characteristics
    Callbacks.did_discover_descriptors_for_characteristic
    Callbacks.did_update_notification_state_for_characteristic
    Callbacks.did_write_value_for_characteristic Callbacks.did_write_value_for_descriptor
    Callbacks.did_open_l2cap_channel Callbacks.did_update_value_for_descriptor
answered_sends (Answers.included_services k r) id s w = (_, refl, resolve_found k id _ _ s.trace w)
answered_sends (Answers.characteristics k r) id s w = (_, refl, resolve_found k id _ _ s.trace w)
answered_sends (Answers.descriptors k r) id s w = (_, refl, resolve_found k id _ _ s.trace w)
answered_sends (Answers.notification k r b) id s w = (_, refl, resolve_found k id _ _ s.trace w)
answered_sends (Answers.characteristic_write k r) id s w =
    (_, refl, resolve_found k id _ _ s.trace w)
answered_sends (Answers.value_read k u bytes) id s w = (
  _,
  found_then_resolved k id (ok u) (some bytes) (ok bytes) s w refl,
  resolve_found k id _ _ s.trace w,
)
answered_sends (Answers.value_failed k e v) id s w =
    (_, found_then_resolved k id (err e) v (err e) s w refl, resolve_found k id _ _ s.trace w)
answered_sends (Answers.descriptor_write k r) id s w = (_, refl, resolve_found k id _ _ s.trace w)
answered_sends (Answers.l2cap k r) id s w = (_, refl, resolve_cell_found id _ _ s.trace w)

once : (id n : ℕ) → (if ltb id n then 1 else 0) ≤ 1
once id n = ground arith

-- A sender that waits was not used.
pub waiting_unused :
    (slot : Slot) (k id : ℕ) (s : State)
    → IsLinear s
    → waiter slot k s ≡ some id
    → settled id s.trace.calls ≡ 0
waiting_unused Slot.included_services k id s h w =
    omega
      (arith, h.accounted id, once id s.trace.next, get-held id k s.included_service_discovery w)
waiting_unused Slot.characteristics k id s h w =
    omega (arith, h.accounted id, once id s.trace.next, get-held id k s.characteristic_discovery w)
waiting_unused Slot.descriptors k id s h w =
    omega (arith, h.accounted id, once id s.trace.next, get-held id k s.descriptor_discovery w)
waiting_unused Slot.notification k id s h w =
    omega (arith, h.accounted id, once id s.trace.next, get-held id k s.notification_updates w)
waiting_unused Slot.characteristic_write k id s h w =
    omega (arith, h.accounted id, once id s.trace.next, get-held id k s.characteristic_writes w)
waiting_unused Slot.descriptor_value k id s h w =
    omega (arith, h.accounted id, once id s.trace.next, get-held id k s.descriptor_value_updates w)
waiting_unused Slot.descriptor_write k id s h w =
    omega (arith, h.accounted id, once id s.trace.next, get-held id k s.descriptor_writes w)
waiting_unused Slot.l2cap k id s h w = omega (arith, h.accounted id, once id s.trace.next, here)
  where
    here : 1 ≤ held_by id s.l2cap_channel_opened
    here = rw w (ground arith)

-- Asking again drops the sender that waits in the slot.
pub asked_drops :
    (peripheral : ℕ) {r : Request} {slot : Slot} {k : ℕ} (a : Asks r slot k) (id : ℕ) (s : State)
    → waiter slot k s ≡ some id
    → (t : State) × (request peripheral r s ≡ done t)
      × (earlier : List (Call Update)) × (t.trace.calls ≡ Call.close id ∷ earlier)
      × (settled id earlier ≡ settled id s.trace.calls)
unfolding settled request Requests.discover_included_services Requests.discover_characteristics
    Requests.discover_descriptors Requests.read_descriptor_value Requests.write_characteristic_value
    Requests.write_descriptor_value Requests.set_notify Requests.open_l2cap_channel
asked_drops peripheral (Asks.included_services k o) id s w =
    (_, refl, _, register_found k id _ _ w, omega arith)
asked_drops peripheral (Asks.characteristics k o) id s w =
    (_, refl, _, register_found k id _ _ w, omega arith)
asked_drops peripheral (Asks.descriptors k) id s w =
    (_, refl, _, register_found k id _ _ w, omega arith)
asked_drops peripheral (Asks.notification k b) id s w =
    (_, refl, _, register_found k id _ _ w, omega arith)
asked_drops peripheral (Asks.characteristic_write k b t) id s w =
    (_, refl, _, register_found k id _ _ w, omega arith)
asked_drops peripheral (Asks.descriptor_value k) id s w =
    (_, refl, _, register_found k id _ _ w, omega arith)
asked_drops peripheral (Asks.descriptor_write k b) id s w =
    (_, refl, _, register_found k id _ _ w, omega arith)
asked_drops peripheral (Asks.l2cap psm k) id s w =
    (_, refl, _, register_cell_found id _ _ w, omega arith)

-- ===== src/Async/Peripheral/Account.antt =====
-- The oneshot senders that the delegate of corebluetooth-async/src/peripheral.rs holds or has used, and
-- that a callback neither adds to them nor takes one away.
use corebluetooth_rs.Prelude.{
  ℕ, ◌+◌, ◌≡◌, false, Option, none, some, done, ◌>>=◌, ok, err, Ensures, arith, ◌==◌, Bool-cases,
  Option-cases, inl, inr,
}
use corebluetooth_rs.Prelude.Bytes.{Bytes}
use corebluetooth_rs.Prelude.HashMap.{get, held, held_by}
use corebluetooth_rs.Async.Oneshot.{
  resolve, resolve_account, resolve_cell_account, resolve_next, resolve_cell_next,
}
use corebluetooth_rs.Async.Peripheral.Callbacks
use corebluetooth_rs.Async.Peripheral.Run.{Callback, call}
use corebluetooth_rs.Async.Peripheral.State.{State, Update, CbResult}
use corebluetooth_rs.Async.RefCell
use corebluetooth_rs.Async.Trace.{settled}

-- How many of the delegate's maps and cells hold the sender `id`, an entry each time.
abbrev waiting : ℕ → State → ℕ
waiting id s =
    held id s.included_service_discovery
    + held id s.characteristic_discovery
    + held id s.descriptor_discovery
    + held id s.notification_updates
    + held id s.characteristic_writes
    + held id s.descriptor_value_updates
    + held id s.descriptor_writes
    + held_by id s.l2cap_channel_opened

abbrev pub account : ℕ → State → ℕ
account id s = waiting id s + settled id s.trace.calls

-- No shared borrow of the `RefCell` is alive.
abbrev pub IsFree : State → Type 0
IsFree s = s.characteristic_value_updates.readers ≡ 0

-- The state under the borrow that `did_update_value_for_characteristic` takes.
abbrev borrowed : State → State
borrowed s = record s {
  characteristic_value_updates = RefCell.borrow s.characteristic_value_updates;
}

pub record Kept (id : ℕ) (s t : State) : Type 0 where
  pub same : account id t ≡ account id s
  pub next : t.trace.next ≡ s.trace.next
  pub free : IsFree s → IsFree t

ruleset resolving = (arith, resolve_account, resolve_next)

-- A cell with a shared borrow is not free.
pub alive : (n : ℕ) → ((n + 1) == 0) ≡ false
alive n = ground arith

deliver-Kept :
    (id k sender : ℕ) (r : CbResult (Unit {0})) (v : Option Bytes) (n : ℕ) (s : State)
    → Ensures (Kept id s) (Callbacks.deliver_value k sender r v n (borrowed s))
unfolding Callbacks.deliver_value settled
deliver-Kept id k sender (ok u) none n s = tt
deliver-Kept id k sender (ok u) (some bytes) n s = elim (Bool-cases (n == 0)) [
  | inl e ↦ rw (e, alive s.characteristic_value_updates.readers) tt
  | inr e ↦ rw e (omega arith)
]
deliver-Kept id k sender (err x) v n s = elim (Bool-cases (n == 0)) [
  | inl e ↦ rw (e, alive s.characteristic_value_updates.readers) tt
  | inr e ↦ rw e (omega arith)
]

-- The borrow that a characteristic's value is delivered under ends with the callback.
value-Kept :
    (id k : ℕ) (r : CbResult (Unit {0})) (v : Option Bytes) (n : ℕ) (s : State)
    → Ensures (Kept id s) (Callbacks.did_update_value_for_characteristic k r v n s)
unfolding Callbacks.did_update_value_for_characteristic
value-Kept id k r v n s = elim (Option-cases (get k s.characteristic_value_updates.value)) [
  | inl e ↦ rw (e, Callbacks.did_update_value_for_characteristic) (omega arith)
  | inr (sender, e) ↦
      rw (e, Callbacks.did_update_value_for_characteristic) (deliver-Kept id k sender r v n s)
]

descriptor_found :
    (id k : ℕ) (r : CbResult (Unit {0})) (v : Option Bytes) (s : State)
    → Ensures (Kept id s) (do
      update ← Callbacks.read_value r v
      let (map, trace) =
          resolve k (Update.bytes (Callbacks.convert update)) s.descriptor_value_updates s.trace
      done (record s { descriptor_value_updates = map; trace = trace }))
descriptor_found id k (ok u) none s = tt
descriptor_found id k (ok u) (some bytes) s = omega resolving
descriptor_found id k (err x) v s = omega resolving

descriptor-Kept :
    (id k : ℕ) (r : CbResult (Unit {0})) (v : Option Bytes) (s : State)
    → Ensures (Kept id s) (Callbacks.did_update_value_for_descriptor k r v s)
unfolding Callbacks.did_update_value_for_descriptor
descriptor-Kept id k r v s = elim (Option-cases (get k s.descriptor_value_updates)) [
  | inl e ↦ rw (e, Callbacks.did_update_value_for_descriptor) (omega arith)
  | inr (sender, e) ↦
      rw (e, Callbacks.did_update_value_for_descriptor) (descriptor_found id k r v s)
]

pub callback-Kept : (id : ℕ) (c : Callback) (s : State) → Ensures (Kept id s) (call c s)
unfolding call settled Callbacks.did_update_name Callbacks.did_modify_services
    Callbacks.did_read_rssi Callbacks.did_discover_services Callbacks.did_discover_included_services
    Callbacks.did_discover_characteristics Callbacks.did_write_value_for_characteristic
    Callbacks.did_update_notification_state_for_characteristic
    Callbacks.did_discover_descriptors_for_characteristic Callbacks.did_write_value_for_descriptor
    Callbacks.is_ready_to_send_write_without_response Callbacks.did_open_l2cap_channel
callback-Kept id (Callback.did_update_name x) s = omega arith
callback-Kept id (Callback.did_modify_services x) s = omega arith
callback-Kept id (Callback.did_read_rssi x) s = omega arith
callback-Kept id (Callback.did_discover_services x) s = omega arith
callback-Kept id (Callback.did_discover_included_services k r) s = omega resolving
callback-Kept id (Callback.did_discover_characteristics k r) s = omega resolving
callback-Kept id (Callback.did_update_value_for_characteristic k r v n) s = value-Kept id k r v n s
callback-Kept id (Callback.did_write_value_for_characteristic k r) s = omega resolving
callback-Kept id (Callback.did_update_notification_state k r b) s = omega resolving
callback-Kept id (Callback.did_discover_descriptors k r) s = omega resolving
callback-Kept id (Callback.did_update_value_for_descriptor k r v) s = descriptor-Kept id k r v s
callback-Kept id (Callback.did_write_value_for_descriptor k r) s = omega resolving
callback-Kept id Callback.is_ready_to_send_write_without_response s = omega arith
callback-Kept id (Callback.did_open_l2cap_channel r) s =
    omega (arith, resolve_cell_account, resolve_cell_next)

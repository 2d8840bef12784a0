-- ===== src/Async/Peripheral/Callbacks.antt =====
-- `impl PeripheralDelegate for PeripheralAsyncDelegate`
-- (corebluetooth-async/src/peripheral.rs): what each callback does to the state. What a callback
-- reads of CoreBluetooth or of a channel at that moment (a value, `is_notifying`, the number of
-- receivers) is an argument.
use corebluetooth_rs.Prelude.{
  ℕ, Bool, Option, none, some, List, Outcome, done, ◌>>=◌, unwrap, Result, ok, err, map_ok, map_err,
  ◌==◌, if◌then◌else◌,
}
use corebluetooth_rs.Prelude.Bytes.{Bytes}
use corebluetooth_rs.Prelude.HashMap.{get, remove}
use corebluetooth_rs.Error.Async.{Error, from_error}
use corebluetooth_rs.Error.Sync
use corebluetooth_rs.Async.Oneshot.{resolve, resolve_cell}
use corebluetooth_rs.Async.RefCell
use corebluetooth_rs.Async.RefCell.{RefCell}
use corebluetooth_rs.Async.Trace.{Call, add}
use corebluetooth_rs.Async.Peripheral.State.{State, Update, CbResult}

-- `result.map_err(Into::into)`
abbrev pub convert {ℓ} : {A : Type ℓ} → Result A Sync.Error → Result A Error
convert result = map_err from_error result

-- `let _ = sender.try_broadcast(update);`
abbrev pub publish : ℕ → Update → State → State
publish sender update s = record s { trace = add (Call.try_broadcast sender update) s.trace }

unfoldable pub did_update_name : Option Bytes → State → State
did_update_name name s = publish s.name_updates (Update.name name) s

unfoldable pub did_modify_services : List ℕ → State → State
did_modify_services invalidated_services s =
    publish s.services_changed (Update.services invalidated_services) s

unfoldable pub did_read_rssi : CbResult ℕ → State → State
did_read_rssi rssi s = publish s.rssi_updates (Update.rssi (convert rssi)) s

unfoldable pub did_discover_services : CbResult (Unit {0}) → State → State
did_discover_services result s = publish s.service_discovery (Update.unit (convert result)) s

unfoldable pub did_discover_included_services : ℕ → CbResult (Unit {0}) → State → State
did_discover_included_services service result s =
    let (map, trace) =
      resolve service (Update.unit (convert result)) s.included_service_discovery s.trace in
    record s { included_service_discovery = map; trace = trace }

unfoldable pub did_discover_characteristics : ℕ → CbResult (Unit {0}) → State → State
did_discover_characteristics service result s =
    let (map, trace) =
      resolve service (Update.unit (convert result)) s.characteristic_discovery s.trace in
    record s { characteristic_discovery = map; trace = trace }

-- `result.map(|_| value.unwrap())`: the value is looked at only if the result is `Ok`.
abbrev pub read_value : CbResult (Unit {0}) → Option Bytes → Outcome (CbResult Bytes)
read_value (ok _) value = do bytes ← unwrap value; done (ok bytes)
read_value (err e) value = done (err e)

-- The body of the `if let` under the shared borrow that its scrutinee holds; the borrow ends
-- with the statement.
unfoldable pub deliver_value :
    ℕ → ℕ → CbResult (Unit {0}) → Option Bytes → ℕ → State → Outcome State
deliver_value characteristic sender result value receiver_count s = do
  update ← read_value result value
  let forget : Outcome State = (do
    cell ← RefCell.update_mut (remove characteristic) s.characteristic_value_updates
    done (record s { characteristic_value_updates = RefCell.release cell }))
  let send : Outcome State = done (record s {
    characteristic_value_updates = RefCell.release s.characteristic_value_updates;
    trace = add (Call.try_broadcast sender (Update.bytes (convert update))) s.trace;
  })
  if receiver_count == 0 then forget else send

unfoldable pub did_update_value_for_characteristic :
    ℕ → CbResult (Unit {0}) → Option Bytes → ℕ → State → Outcome State
unfolding deliver_value
did_update_value_for_characteristic characteristic result value receiver_count s =
    let borrowed : State = record s {
      characteristic_value_updates = RefCell.borrow s.characteristic_value_updates;
    } in
    elim (get characteristic s.characteristic_value_updates.value) [
      | none ↦ done s
      | some sender ↦ deliver_value characteristic sender result value receiver_count borrowed
    ]

unfoldable pub did_write_value_for_characteristic : ℕ → CbResult (Unit {0}) → State → State
did_write_value_for_characteristic characteristic result s =
    let (map, trace) =
      resolve characteristic (Update.unit (convert result)) s.characteristic_writes s.trace in
    record s { characteristic_writes = map; trace = trace }

unfoldable pub did_update_notification_state_for_characteristic :
    ℕ → CbResult (Unit {0}) → Bool → State → State
did_update_notification_state_for_characteristic characteristic result is_notifying s =
    let result = map_ok (λ _. is_notifying) result in
    let (map, trace) =
      resolve characteristic (Update.notifying (convert result)) s.notification_updates s.trace in
    record s { notification_updates = map; trace = trace }

unfoldable pub did_discover_descriptors_for_characteristic : ℕ → CbResult (Unit {0}) → State → State
did_discover_descriptors_for_characteristic characteristic result s =
    let (map, trace) =
      resolve characteristic (Update.unit (convert result)) s.descriptor_discovery s.trace in
    record s { descriptor_discovery = map; trace = trace }

-- The value is read, and unwrapped, only if a request waits.
unfoldable pub did_update_value_for_descriptor :
    ℕ → CbResult (Unit {0}) → Option Bytes → State → Outcome State
did_update_value_for_descriptor descriptor result value s =
    elim (get descriptor s.descriptor_value_updates) [
      | none ↦ done s
      | some _ ↦ do
        update ← read_value result value
        let (map, trace) =
            resolve descriptor (Update.bytes (convert update)) s.descriptor_value_updates s.trace
        done (record s { descriptor_value_updates = map; trace = trace })
    ]

unfoldable pub did_write_value_for_descriptor : ℕ → CbResult (Unit {0}) → State → State
did_write_value_for_descriptor descriptor result s =
    let (map, trace) =
      resolve descriptor (Update.unit (convert result)) s.descriptor_writes s.trace in
    record s { descriptor_writes = map; trace = trace }

unfoldable pub is_ready_to_send_write_without_response : State → State
is_ready_to_send_write_without_response s =
    publish s.ready_to_send_write_without_response Update.ready s

unfoldable pub did_open_l2cap_channel : CbResult (ℕ × ℕ) → State → State
did_open_l2cap_channel result s =
    let (cell, trace) =
      resolve_cell (Update.channel (convert result)) s.l2cap_channel_opened s.trace in
    record s { l2cap_channel_opened = cell; trace = trace }

-- ===== src/Async/Central/Delegate.antt =====
-- `impl CentralManagerDelegate for CentralManagerAsyncDelegate` and the methods of
-- `CentralManagerAsyncDelegate` that hand out a receiver
-- (corebluetooth-async/src/central_manager.rs). What a callback reads of CoreBluetooth or of a
-- channel at that moment is an argument.
use mathlib.Core.Option
use corebluetooth_rs.Prelude.{
  ℕ, ◌+◌, Bool, Option, none, some, List, ◌∷◌, ok, err, if◌then◌else◌, Outcome, done, panic,
}
use corebluetooth_rs.Async.Oneshot.{register, resolve}
use corebluetooth_rs.Async.Trace.{Call, Trace, add}
use corebluetooth_rs.Async.Central.State.{
  State, Event, ManagerState, Link, DidDisconnect, DidDiscover,
}
use corebluetooth_rs.Bluetooth.Advertisement.{AdvertisementData}
use corebluetooth_rs.Bluetooth.Btuuid.{BluetoothUuid}
use corebluetooth_rs.Bluetooth.Central
use corebluetooth_rs.Bluetooth.Messages.{Message}
use corebluetooth_rs.Error.Async.{from_error}
use corebluetooth_rs.Error.Sync

abbrev pub publish : ℕ → Event → State → State
publish sender event s = record s { trace = add (Call.try_broadcast sender event) s.trace }

unfoldable pub did_update_state : ManagerState → State → State
did_update_state state s = publish s.state_updated (Event.state_update state) s

-- `take` empties the cell; the sender goes back if its receiver is alive, and otherwise it is
-- dropped and the scan is stopped.
unfoldable pub did_discover : ℕ → AdvertisementData → ℕ → Bool → State → State
did_discover peripheral advertisement_data rssi receiver_alive s = elim (s.discoveries) [
  | none ↦ s
  | some sender ↦
      let event : DidDiscover = record {
        peripheral = peripheral;
        advertisement_data = advertisement_data;
        rssi = rssi;
      } in
      let sent : Trace Event = add (Call.unbounded_send sender (Event.discover event)) s.trace in
      if receiver_alive then record s { discoveries = some sender; trace = sent } else record s {
        discoveries = none;
        trace = add (Call.close_unbounded sender) (add (Call.message Central.stop_scan) sent);
      }
]

unfoldable pub did_connect : ℕ → State → State
did_connect id s =
    let (map, trace) = resolve id (Event.connect_result (ok tt)) s.connecting s.trace in
    record s { connecting = map; trace = trace }

unfoldable pub did_fail_to_connect : ℕ → Sync.Error → State → State
did_fail_to_connect id error s =
    let (map, trace) =
      resolve id (Event.connect_result (err (from_error error))) s.connecting s.trace in
    record s { connecting = map; trace = trace }

unfoldable pub did_disconnect : ℕ → Option ℕ → Bool → Option Sync.Error → State → State
did_disconnect peripheral timestamp is_reconnecting error s =
    let event : DidDisconnect = record {
      peripheral = peripheral;
      timestamp = timestamp;
      is_reconnecting = is_reconnecting;
      error = Option.map from_error error;
    } in
    publish s.disconnects (Event.disconnect event) s

unfoldable pub on_connection_event : Link → ℕ → State → State
on_connection_event event peripheral s =
    publish s.connection_events
      (Event.connection (record { peripheral = peripheral; event = event })) s

unfoldable pub did_update_ancs_authorization : ℕ → State → State
did_update_ancs_authorization peripheral s =
    publish s.ancs_authorization_updates (Event.ancs_authorization peripheral) s

unfoldable pub register_connecting : ℕ → State → State × ℕ
register_connecting id s =
    let (map, trace) = register id s.connecting s.trace in
    (record s { connecting = map; trace = trace }, s.trace.next)

abbrev pub subscribe : ℕ → State → State × ℕ
subscribe sender s = (record s { trace = add (Call.new_receiver sender) s.trace }, sender)

unfoldable pub state_updated : State → State × ℕ
state_updated s = subscribe s.state_updated s

unfoldable pub disconnects : State → State × ℕ
disconnects s = subscribe s.disconnects s

unfoldable pub connection_events : State → State × ℕ
connection_events s = subscribe s.connection_events s

unfoldable pub ancs_authorization_updates : State → State × ℕ
ancs_authorization_updates s = subscribe s.ancs_authorization_updates s

-- `Cell::set` drops the sender of an earlier scan.
abbrev pub drop_sender : Option ℕ → List (Call Event) → List (Call Event)
drop_sender none calls = calls
drop_sender (some old) calls = Call.close_unbounded old ∷ calls

unfoldable pub discoveries : State → State × ℕ
discoveries s =
    let sender = s.trace.next_unbounded in
    let opened : Trace Event = record (s.trace) {
      calls = drop_sender s.discoveries (Call.unbounded sender ∷ s.trace.calls);
      next_unbounded = sender + 1;
    } in
    (record s { discoveries = some sender; trace = opened }, sender)

abbrev pub tell : Message → State → State
tell message s = record s { trace = add (Call.message message) s.trace }

-- `CentralManagerAsync::scan` panics if a scan is in progress.
unfoldable pub scan :
    Bool
    → Option (List BluetoothUuid)
    → Bool
    → Option (List BluetoothUuid)
    → State
    → Outcome (State × ℕ)
unfolding discoveries
scan is_scanning services allow_duplicates solicited_services s =
    if is_scanning
    then panic
    else done (discoveries (tell (Central.scan services allow_duplicates solicited_services) s))

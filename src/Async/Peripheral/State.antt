-- ===== src/Async/Peripheral/State.antt =====
-- The state of `PeripheralAsyncDelegate` (corebluetooth-async/src/peripheral.rs), with the trace
-- of the calls that it made.
use corebluetooth_rs.Prelude.{ℕ, Bool, Option, none, List, [], Result}
use corebluetooth_rs.Prelude.Bytes.{Bytes}
use corebluetooth_rs.Prelude.HashMap.{HashMap}
use corebluetooth_rs.Error.Async.{Error}
use corebluetooth_rs.Error.Sync
use corebluetooth_rs.Async.Oneshot.{OneshotMap}
use corebluetooth_rs.Async.RefCell
use corebluetooth_rs.Async.RefCell.{RefCell}
use corebluetooth_rs.Async.Trace.{Trace, broadcast, watch}

-- `corebluetooth::Result` and the `Result` of this crate.
abbrev pub CbResult : Type 0 → Type 0
CbResult A = Result A Sync.Error

abbrev AsyncResult : Type 0 → Type 0
AsyncResult A = Result A Error

-- What is sent through the channels. A service is its identity; an opened L2CAP channel is that
-- of the `CBL2CAPChannel` with the file descriptor of its stream. `L2capChannel::map` changes the
-- type of the peer only.
pub data Update : Type 0 where
  name : Option Bytes → Update
  services : List ℕ → Update
  rssi : AsyncResult ℕ → Update
  unit : AsyncResult (Unit {0}) → Update
  bytes : AsyncResult Bytes → Update
  notifying : AsyncResult Bool → Update
  channel : AsyncResult (ℕ × ℕ) → Update
  ready : Update

-- A broadcast sender is the number of its channel, and so is a oneshot sender.
pub record State : Type 0 where
  pub name_updates : ℕ
  pub services_changed : ℕ
  pub rssi_updates : ℕ
  pub service_discovery : ℕ
  pub included_service_discovery : OneshotMap
  pub characteristic_discovery : OneshotMap
  pub descriptor_discovery : OneshotMap
  pub characteristic_value_updates : RefCell (HashMap ℕ)
  pub notification_updates : OneshotMap
  pub characteristic_writes : OneshotMap
  pub descriptor_value_updates : OneshotMap
  pub descriptor_writes : OneshotMap
  pub ready_to_send_write_without_response : ℕ
  pub l2cap_channel_opened : Option ℕ
  pub trace : Trace Update

abbrev pub start : Trace Update
start = record { calls = []; next = 0; next_broadcast = 0; next_unbounded = 0 }

-- `Default::default()`
unfoldable pub default : State
unfolding broadcast watch
default =
    let (name_updates, t1) = watch start in
    let (services_changed, t2) = broadcast 16 t1 in
    let (rssi_updates, t3) = watch t2 in
    let (service_discovery, t4) = watch t3 in
    let (ready_to_send_write_without_response, t5) = watch t4 in
    record {
      name_updates = name_updates;
      services_changed = services_changed;
      rssi_updates = rssi_updates;
      service_discovery = service_discovery;
      included_service_discovery = [];
      characteristic_discovery = [];
      descriptor_discovery = [];
      characteristic_value_updates = RefCell.new [];
      notification_updates = [];
      characteristic_writes = [];
      descriptor_value_updates = [];
      descriptor_writes = [];
      ready_to_send_write_without_response = ready_to_send_write_without_response;
      l2cap_channel_opened = none;
      trace = t5;
    }

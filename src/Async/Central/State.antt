-- ===== src/Async/Central/State.antt =====
-- The events and the state of `CentralManagerAsyncDelegate`
-- (corebluetooth-async/src/central_manager.rs), with the trace of the calls that it made.
use corebluetooth_rs.Prelude.{ℕ, Bool, Option, none, [], Result}
use corebluetooth_rs.Async.Oneshot.{OneshotMap}
use corebluetooth_rs.Async.Trace.{Trace, broadcast, watch}
use corebluetooth_rs.Bluetooth.Advertisement.{AdvertisementData}
use corebluetooth_rs.Error.Async.{Error}

-- `CBManagerState`, `CBPeripheralState` and `CBConnectionEvent` of objc2-core-bluetooth.
pub data ManagerState : Type 0 where
  unknown resetting unsupported unauthorized powered_off powered_on : ManagerState

pub data PeripheralState : Type 0 where
  disconnected connecting connected disconnecting : PeripheralState

pub data Link : Type 0 where
  peer_disconnected peer_connected : Link

-- A peripheral is known by its identity; a time is a number, an i16 the number of its 16 bits.
pub record DidDisconnect : Type 0 where
  pub peripheral : ℕ
  pub timestamp : Option ℕ
  pub is_reconnecting : Bool
  pub error : Option Error

pub record DidDiscover : Type 0 where
  pub peripheral : ℕ
  pub advertisement_data : AdvertisementData
  pub rssi : ℕ

pub record ConnectionEvent : Type 0 where
  pub peripheral : ℕ
  pub event : Link

-- What is sent through the channels.
pub data Event : Type 0 where
  connect_result : Result (Unit {0}) Error → Event
  state_update : ManagerState → Event
  disconnect : DidDisconnect → Event
  discover : DidDiscover → Event
  connection : ConnectionEvent → Event
  ancs_authorization : ℕ → Event

-- `connecting` is keyed by the identifier of the peripheral, a `Uuid`.
pub record State : Type 0 where
  pub connecting : OneshotMap
  pub state_updated : ℕ
  pub disconnects : ℕ
  pub discoveries : Option ℕ
  pub connection_events : ℕ
  pub ancs_authorization_updates : ℕ
  pub trace : Trace Event

abbrev pub start : Trace Event
start = record { calls = []; next = 0; next_broadcast = 0; next_unbounded = 0 }

-- `CentralManagerAsyncDelegate::new()`
unfoldable pub new : State
unfolding broadcast watch
new =
    let (state_updated, t1) = watch start in
    let (disconnects, t2) = broadcast 16 t1 in
    let (connection_events, t3) = broadcast 16 t2 in
    let (ancs_authorization_updates, t4) = broadcast 16 t3 in
    record {
      connecting = [];
      state_updated = state_updated;
      disconnects = disconnects;
      discoveries = none;
      connection_events = connection_events;
      ancs_authorization_updates = ancs_authorization_updates;
      trace = t4;
    }

-- ===== src/Bluetooth/Manager.antt =====
-- The rest of `CentralManager` (corebluetooth/src/central_manager.rs): where it runs, what it wraps,
-- the peripherals that it retrieves, and `to_system_time`.
use Prim.Native.String.{String}
use corebluetooth_rs.Prelude.{
  ℕ, ◌+◌, Bool, Option, none, some, List, [], ◌∷◌, map, Outcome, done, ◌>>=◌, unwrap, ◌==◌,
}
use corebluetooth_rs.Prelude.Bytes.{Bytes, to_be_bytes}
use corebluetooth_rs.Bluetooth.Bridge
use corebluetooth_rs.Bluetooth.Bridge.{Attached, Delegates, Peripheral}
use corebluetooth_rs.Bluetooth.Btuuid.{BluetoothUuid, to_cbuuid}
use corebluetooth_rs.Bluetooth.Central
use corebluetooth_rs.Bluetooth.Messages.{Message}
use corebluetooth_rs.Dispatch.Attr.{Dispatch2, DispatchQos, to_attr}
use corebluetooth_rs.Dispatch.Executor
use corebluetooth_rs.Dispatch.Executor.{Executor, Dispatch}

-- The `CBCentralManager` and its delegate's bridge, by their numbers.
pub record CentralManager : Type 0 where
  pub central : ℕ
  pub delegate : ℕ

-- `attached` is what CoreBluetooth gives for `central.delegate()`.
unfoldable pub new : ℕ → Option Attached → Outcome CentralManager
new central attached = do
  delegate ← unwrap (Bridge.downcast attached)
  done (record { central = central; delegate = delegate })

unfoldable pub eq : CentralManager → CentralManager → Bool
eq self other = self.central == other.central

-- A manager on the queue of an executor: the number of the queue that it is given, and the message
-- that creates it.
pub record Started : Type 0 where
  pub queue : ℕ
  pub message : Message

unfoldable init_on : ℕ → Bool → Option String → Started
unfolding Central.init
init_on queue show_power_alert restore_id = record {
  queue = queue;
  message = Central.init show_power_alert restore_id;
}

module _ (dispatch2 : Dispatch2) (work_item : ℕ) where
  -- `make_delegate` and `entry` are the two closures that the program gives.
  unfoldable pub background :
      {D R : Type 0}
      → DispatchQos
      → (Executor → D)
      → Bool
      → Option String
      → (D → Started → Executor → Dispatch dispatch2.Attr → R × Dispatch dispatch2.Attr)
      → Dispatch dispatch2.Attr
      → R × Dispatch dispatch2.Attr
  unfolding Executor.background to_attr init_on
  background qos make_delegate show_power_alert restore_id entry d =
      Executor.background "bluetooth" (to_attr dispatch2 work_item qos)
        (λ executor d'.
          entry (make_delegate executor) (init_on executor.queue show_power_alert restore_id)
            executor d')
        d

-- `main` is the queue that `DispatchQueue::main()` gives.
unfoldable pub main_thread : ℕ → Bool → Option String → Started
unfolding init_on
main_thread main show_power_alert restore_id = init_on main show_power_alert restore_id

-- What the two queries send, in the order of their arguments.
unfoldable pub retrieve_identifiers : List ℕ → List Bytes
retrieve_identifiers identifiers = map (to_be_bytes 16) identifiers

unfoldable retrieve_services : List BluetoothUuid → List Bytes
retrieve_services services = map to_cbuuid services

-- What both make of the peripherals that CoreBluetooth returns: `Peripheral::init` of each. The
-- bridge that is made for one, if it has none, has the next number.
unfoldable pub init_all : List ℕ → ℕ → Delegates → Delegates × List Peripheral
unfolding Bridge.init
init_all [] fresh s = (s, [])
init_all (peripheral ∷ peripherals) fresh s =
    let (s', wrapped) = Bridge.init peripheral fresh s in
    let (s'', rest) = init_all peripherals (fresh + 1) s' in (s'', wrapped ∷ rest)

-- `CBCentralManager` answers a query: a parameter.
pub record Retrieval : Type 0 where
  pub with_identifiers : List Bytes → List ℕ
  pub connected_with_services : List Bytes → List ℕ

module _ (central : Retrieval) where
  unfoldable pub retrieve_peripherals : List ℕ → ℕ → Delegates → Delegates × List Peripheral
  unfolding retrieve_identifiers init_all
  retrieve_peripherals identifiers fresh s =
      init_all (central.with_identifiers (retrieve_identifiers identifiers)) fresh s

  unfoldable retrieve_connected_peripherals :
      List BluetoothUuid → ℕ → Delegates → Delegates × List Peripheral
  unfolding retrieve_services init_all
  retrieve_connected_peripherals services fresh s =
      init_all (central.connected_with_services (retrieve_services services)) fresh s

-- The float arithmetic and `std::time`, parameters: `since_1970` adds the seconds between the two
-- epochs, `try_from_secs_f64` gives a duration or an error, and `checked_add` adds it to the epoch.
pub record Time : Type 1 where
  Float : Type 0
  Duration : Type 0
  SystemTime : Type 0
  pub since_1970 : Float → Float
  pub try_from_secs_f64 : Float → Option Duration
  pub checked_add : Duration → Option SystemTime

unfoldable to_system_time : (time : Time) → time.Float → Option time.SystemTime
to_system_time time timestamp = elim (time.try_from_secs_f64 (time.since_1970 timestamp)) [
  | none ↦ none
  | some duration ↦ time.checked_add duration
]

-- ===== src/Bluetooth/Bridge.antt =====
-- The Objective-C delegates of the crate corebluetooth: `Peripheral::init` and `Peripheral::new`,
-- `or_err` and the methods of `PeripheralDelegateBridge` (corebluetooth/src/peripheral.rs). A
-- bridge is known by its number; of a `CBPeripheral` the code reads and sets the delegate.
use corebluetooth_rs.Prelude.{
  ℕ, Option, none, some, List, Outcome, done, panic, ◌>>=◌, unwrap, Result, ok, err,
}
use corebluetooth_rs.Prelude.HashMap.{HashMap, get, insert}
use corebluetooth_rs.Bluetooth.L2cap
use corebluetooth_rs.Bluetooth.L2cap.{CbChannel}
use corebluetooth_rs.Error.Codes.{NsError}
use corebluetooth_rs.Error.Sync.{Error, from_nserror}

-- The object that a peripheral has as its delegate: a bridge, or of another class.
pub data Attached : Type 0 where
  bridge foreign : ℕ → Attached

abbrev pub Delegates : Type 0
Delegates = HashMap Attached

abbrev pub downcast : Option Attached → Option ℕ
downcast (some (Attached.bridge b)) = some b
downcast (some (Attached.foreign n)) = none
downcast none = none

-- `peripheral.delegate().and_then(|delegate| delegate.downcast().ok())`
abbrev pub bridge_of : ℕ → Delegates → Option ℕ
bridge_of peripheral s = downcast (get peripheral s)

pub record Peripheral : Type 0 where
  pub peripheral : ℕ
  pub delegate : ℕ

abbrev pub found_or : ℕ → Option ℕ → ℕ
found_or fresh (some delegate) = delegate
found_or fresh none = fresh

-- `fresh` is the bridge that `PeripheralDelegateBridge::new(delegate_factory())` makes.
unfoldable pub init : ℕ → ℕ → Delegates → Delegates × Peripheral
init peripheral fresh s =
    let delegate = found_or fresh (bridge_of peripheral s) in
    (
      insert peripheral (Attached.bridge delegate) s,
      record { peripheral = peripheral; delegate = delegate },
    )

unfoldable pub new : ℕ → Delegates → Outcome Peripheral
new peripheral s = do
  delegate ← unwrap (bridge_of peripheral s)
  done (record { peripheral = peripheral; delegate = delegate })

unfoldable pub or_err {ℓ} : {A : Type ℓ} → A → Option NsError → Result A Error
unfolding from_nserror
or_err val none = ok val
or_err val (some error) = err (from_nserror error)

-- What CoreBluetooth calls the bridge with, after the peripheral.
pub data Raw : Type 0 where
  did_update_name : Raw
  did_modify_services : List ℕ → Raw
  did_read_rssi : ℕ → Option NsError → Raw
  did_discover_services : Option NsError → Raw
  did_discover_included_services did_discover_characteristics : ℕ → Option NsError → Raw
  did_update_value_for_characteristic did_write_value_for_characteristic : ℕ → Option NsError → Raw
  did_update_notification_state did_discover_descriptors : ℕ → Option NsError → Raw
  did_update_value_for_descriptor did_write_value_for_descriptor : ℕ → Option NsError → Raw
  is_ready_to_send_write_without_response : Raw
  did_open_l2cap_channel : Option CbChannel → Option NsError → Raw

-- What the bridge calls its `PeripheralDelegate` with, after the peripheral.
pub data Told : Type 0 where
  did_update_name : Told
  did_modify_services : List ℕ → Told
  did_read_rssi : Result ℕ Error → Told
  did_discover_services : Result (Unit {0}) Error → Told
  did_discover_included_services did_discover_characteristics : ℕ → Result (Unit {0}) Error → Told
  did_update_value_for_characteristic did_write_value_for_characteristic :
      ℕ → Result (Unit {0}) Error → Told
  did_update_notification_state did_discover_descriptors : ℕ → Result (Unit {0}) Error → Told
  did_update_value_for_descriptor did_write_value_for_descriptor :
      ℕ → Result (Unit {0}) Error → Told
  is_ready_to_send_write_without_response : Told
  did_open_l2cap_channel : Result (ℕ × ℕ) Error → Told

-- The match on `(channel, error)`: anything but one of the two is `unreachable!()`.
unfoldable pub opened : Option CbChannel → Option NsError → Outcome (Result (ℕ × ℕ) Error)
unfolding from_nserror
opened (some channel) none = do found ← L2cap.new channel; done (ok found)
opened none (some error) = done (err (from_nserror error))
opened (some channel) (some error) = panic
opened none none = panic

unfoldable pub converted : Raw → Outcome Told
unfolding or_err opened
converted Raw.did_update_name = done Told.did_update_name
converted (Raw.did_modify_services l) = done (Told.did_modify_services l)
converted (Raw.did_read_rssi rssi e) = done (Told.did_read_rssi (or_err rssi e))
converted (Raw.did_discover_services e) = done (Told.did_discover_services (or_err tt e))
converted (Raw.did_discover_included_services k e) =
    done (Told.did_discover_included_services k (or_err tt e))
converted (Raw.did_discover_characteristics k e) =
    done (Told.did_discover_characteristics k (or_err tt e))
converted (Raw.did_update_value_for_characteristic k e) =
    done (Told.did_update_value_for_characteristic k (or_err tt e))
converted (Raw.did_write_value_for_characteristic k e) =
    done (Told.did_write_value_for_characteristic k (or_err tt e))
converted (Raw.did_update_notification_state k e) =
    done (Told.did_update_notification_state k (or_err tt e))
converted (Raw.did_discover_descriptors k e) = done (Told.did_discover_descriptors k (or_err tt e))
converted (Raw.did_update_value_for_descriptor k e) =
    done (Told.did_update_value_for_descriptor k (or_err tt e))
converted (Raw.did_write_value_for_descriptor k e) =
    done (Told.did_write_value_for_descriptor k (or_err tt e))
converted Raw.is_ready_to_send_write_without_response =
    done Told.is_ready_to_send_write_without_response
converted (Raw.did_open_l2cap_channel channel e) = do
  result ← opened channel e
  done (Told.did_open_l2cap_channel result)

-- A method of the bridge: the peripheral and the arguments that the delegate's method is given.
unfoldable pub bridged : ℕ → Raw → Delegates → Outcome (Peripheral × Told)
unfolding new converted
bridged peripheral raw s = do told ← converted raw; wrapped ← new peripheral s; done (wrapped, told)

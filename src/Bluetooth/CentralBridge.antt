-- ===== src/Bluetooth/CentralBridge.antt =====
-- The methods of `CentralManagerDelegateBridge` (corebluetooth/src/central_manager.rs): what each
-- does to the delegates of the peripherals and what it calls its `CentralManagerDelegate` with.
-- `will_restore_state` hands its dictionary on as it is.
use mathlib.Core.Option
use corebluetooth_rs.Prelude.{ℕ, Bool, false, Option, none, List, [], ◌∷◌, Outcome, done, ◌>>=◌}
use corebluetooth_rs.Bluetooth.Advertisement.{AdvertisementData, AdvDictionary, from_nsdictionary}
use corebluetooth_rs.Bluetooth.Bridge
use corebluetooth_rs.Bluetooth.Bridge.{Delegates, Peripheral}
use corebluetooth_rs.Bluetooth.Btuuid.{BtuuidCrate}
use corebluetooth_rs.Error.Codes.{CbError, NsError}
use corebluetooth_rs.Error.Sync.{Error, ErrorKind, from_nserror, from_nserror_or_kind}

-- What CoreBluetooth calls the bridge with; `fresh` is the number of the bridge that
-- `new_peripheral_delegate` would be wrapped in. A timestamp is what `to_system_time` makes of it,
-- and a `CBConnectionEvent` is whether the peer connected.
pub data Raw : Type 0 where
  did_update_state will_restore_state : Raw
  did_discover : ℕ → ℕ → AdvDictionary → ℕ → Raw
  did_connect : ℕ → Raw
  did_fail_to_connect : ℕ → Option NsError → Raw
  did_disconnect : ℕ → Option NsError → Raw
  did_disconnect_at : ℕ → Option ℕ → Bool → Option NsError → Raw
  connection_event : ℕ → Bool → Raw
  did_update_ancs_authorization : ℕ → Raw

pub data Told : Type 0 where
  did_update_state will_restore_state : Told
  did_discover : Peripheral → AdvertisementData → ℕ → Told
  did_connect : Peripheral → Told
  did_fail_to_connect : Peripheral → Error → Told
  did_disconnect : Peripheral → Option ℕ → Bool → Option Error → Told
  on_connection_event : Bool → Peripheral → Told
  did_update_ancs_authorization : Peripheral → Told

module _ (btuuid : BtuuidCrate) where
  unfoldable pub bridged : Raw → Delegates → Outcome (Delegates × Told)
  unfolding from_nserror from_nserror_or_kind
  bridged Raw.did_update_state s = done (s, Told.did_update_state)
  bridged Raw.will_restore_state s = done (s, Told.will_restore_state)
  bridged (Raw.did_discover p fresh dictionary rssi) s =
      let (s', wrapped) = Bridge.init p fresh s in
      do
        advertisement_data ← from_nsdictionary btuuid dictionary
        done (s', Told.did_discover wrapped advertisement_data rssi)
  bridged (Raw.did_connect p) s = do wrapped ← Bridge.new p s; done (s, Told.did_connect wrapped)
  bridged (Raw.did_fail_to_connect p error) s = do
    wrapped ← Bridge.new p s
    done (
      s,
      Told.did_fail_to_connect wrapped
          (from_nserror_or_kind error (ErrorKind.bluetooth CbError.connection_failed)),
    )
  bridged (Raw.did_disconnect p error) s = do
    wrapped ← Bridge.new p s
    done (s, Told.did_disconnect wrapped none false (Option.map from_nserror error))
  bridged (Raw.did_disconnect_at p timestamp is_reconnecting error) s = do
    wrapped ← Bridge.new p s
    done (s, Told.did_disconnect wrapped timestamp is_reconnecting (Option.map from_nserror error))
  bridged (Raw.connection_event p event) s = do
    wrapped ← Bridge.new p s
    done (s, Told.on_connection_event event wrapped)
  bridged (Raw.did_update_ancs_authorization p) s = do
    wrapped ← Bridge.new p s
    done (s, Told.did_update_ancs_authorization wrapped)

  unfoldable pub bridge_all : List Raw → Delegates → Outcome (Delegates × List Told)
  bridge_all [] s = done (s, [])
  bridge_all (raw ∷ l) s = do
    (s', told) ← bridged raw s
    (s'', rest) ← bridge_all l s'
    done (s'', told ∷ rest)

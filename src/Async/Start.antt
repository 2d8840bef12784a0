-- ===== src/Async/Start.antt =====
-- How `CentralManagerAsync` (corebluetooth-async/src/central_manager.rs) is created, and how
-- `PeripheralAsync` (corebluetooth-async/src/peripheral.rs) wraps a `Peripheral`.
use corebluetooth_rs.Prelude.{
  ℕ, Bool, none, Outcome, done, panic, ◌>>=◌, Result, ok, err, if◌then◌else◌,
}
use corebluetooth_rs.Async.Central.State.{State, new}
use corebluetooth_rs.Bluetooth.Bridge.{Delegates, Peripheral}
use corebluetooth_rs.Bluetooth.Gatt.{Peer, peripheral_try_from}
use corebluetooth_rs.Bluetooth.Manager
use corebluetooth_rs.Bluetooth.Manager.{Started}
use corebluetooth_rs.Dispatch.Attr.{Dispatch2, DispatchQos}
use corebluetooth_rs.Dispatch.Executor.{Executor, Dispatch}

-- The manager as CoreBluetooth is asked for it, and the state of its delegate.
pub record CentralManagerAsync : Type 0 where
  pub inner : Started
  pub delegate : State

module _ (dispatch2 : Dispatch2) (work_item : ℕ) where
  unfoldable background :
      {R : Type 0}
      → DispatchQos
      → Bool
      → (CentralManagerAsync → Executor → Dispatch dispatch2.Attr → R × Dispatch dispatch2.Attr)
      → Dispatch dispatch2.Attr
      → R × Dispatch dispatch2.Attr
  unfolding Manager.background
  background qos show_power_alert entry d =
      Manager.background dispatch2 work_item qos (λ executor. new) show_power_alert none
        (λ delegate inner executor d'.
          entry (record { inner = inner; delegate = delegate }) executor d')
        d

unfoldable main_thread : ℕ → Bool → CentralManagerAsync
unfolding Manager.main_thread
main_thread main show_power_alert = record {
  inner = Manager.main_thread main show_power_alert none;
  delegate = new;
}

pub record PeripheralAsync : Type 0 where
  pub inner : Peripheral

-- Whether the delegate in a bridge is a `PeripheralAsyncDelegate` is an argument.
unfoldable wrap : (ℕ → Bool) → Peripheral → Outcome PeripheralAsync
wrap is_async inner = if is_async inner.delegate then done (record { inner = inner }) else panic

unfoldable new_unchecked : Peripheral → PeripheralAsync
new_unchecked inner = record { inner = inner }

-- The delegate that every method uses, by the bridge that it is in: `wrap` is not the only way to
-- make a `PeripheralAsync`, and this check is made again.
unfoldable pub delegate : (ℕ → Bool) → PeripheralAsync → Outcome ℕ
delegate is_async self = if is_async self.inner.delegate then done self.inner.delegate else panic

abbrev wrap_ok : Result Peripheral Peer → Result PeripheralAsync Peer
wrap_ok (ok inner) = ok (record { inner = inner })
wrap_ok (err peer) = err peer

unfoldable try_from : Delegates → Peer → Outcome (Result PeripheralAsync Peer)
unfolding peripheral_try_from
try_from s value = do inner ← peripheral_try_from s value; done (wrap_ok inner)

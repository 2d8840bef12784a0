-- ===== src/Async/Central/Connect.antt =====
-- The futures of `CentralManagerAsync` (corebluetooth-async/src/central_manager.rs):
-- `connect_with_options`, with the guard of corebluetooth-async/src/util.rs that cancels a
-- connection that was not completed, and `cancel_peripheral_connection`. A future is cut at its
-- `await`; what it reads of CoreBluetooth at that moment is an argument.
use corebluetooth_rs.Prelude.{
  ℕ, Bool, true, false, Option, none, some, List, [], ◌∷◌, Outcome, done, panic, Result, ok, err,
  ◌||◌, ◌==◌, if◌then◌else◌,
}
use corebluetooth_rs.Async.Crate.{Poll, pending, ready, Canceled}
use corebluetooth_rs.Async.Guard.{defer, defuse, drop}
use corebluetooth_rs.Async.Central.State.{State, Event, PeripheralState, DidDisconnect}
use corebluetooth_rs.Async.Central.Delegate.{tell, register_connecting, disconnects}
use corebluetooth_rs.Bluetooth.Central
use corebluetooth_rs.Bluetooth.Options.{ConnectPeripheralOptions, default_options}
use corebluetooth_rs.Error.Async.{Error, from_canceled}

abbrev is_connecting : PeripheralState → Bool
is_connecting PeripheralState.connecting = true
is_connecting _ = false

abbrev is_connected : PeripheralState → Bool
is_connected PeripheralState.connected = true
is_connected _ = false

-- Up to the `await`; the receiver is that of the sender whose number is returned.
unfoldable pub connect_with_options : ℕ → ConnectPeripheralOptions → State → State × ℕ
unfolding register_connecting
connect_with_options peripheral options s =
    register_connecting peripheral (tell (Central.connect_with_options peripheral options) s)

unfoldable pub connect : ℕ → State → State × ℕ
unfolding connect_with_options
connect peripheral s = connect_with_options peripheral default_options s

-- The closure that the guard runs when it is dropped: on the `?`, and when the future is dropped
-- before it is ready.
unfoldable pub drop_guard : ℕ → PeripheralState → State → State
drop_guard peripheral state s =
    if is_connecting state then tell (Central.cancel_peripheral_connection peripheral) s else s

-- After the `await`: `?` drops the guard, and a result that was sent defuses it. The event is the
-- `Result<()>` of `did_connect` or `did_fail_to_connect`.
unfoldable pub resume :
    ℕ → PeripheralState → Poll (Result Event Canceled) → State → State × Poll (Result Event Error)
unfolding drop_guard from_canceled
resume peripheral state pending s = (s, pending)
resume peripheral state (ready (ok event)) s =
    (defuse (defer (drop_guard peripheral state)) s, ready (ok event))
resume peripheral state (ready (err Canceled.canceled)) s =
    (drop (defer (drop_guard peripheral state)) s, ready (err from_canceled))

-- Up to the loop: none if nothing is awaited, and the receiver's channel otherwise.
unfoldable pub cancel_peripheral_connection : ℕ → PeripheralState → State → State × Option ℕ
unfolding disconnects
cancel_peripheral_connection peripheral state s =
    let told =
      if is_connecting state || is_connected state
      then tell (Central.cancel_peripheral_connection peripheral) s
      else s in
    if is_connected state
    then (let (subscribed, receiver) = disconnects told in (subscribed, some receiver))
    else (told, none)

-- The loop over what `recv()` gives, one after the other: an event, or an error once the receiver
-- has lagged behind or the channel is closed. It waits on when the list ends.
unfoldable pub await_disconnect :
    {E : Type 0} → ℕ → List (Result DidDisconnect E) → Outcome (Poll DidDisconnect)
await_disconnect peripheral [] = done pending
await_disconnect peripheral (err e ∷ received) = panic
await_disconnect peripheral (ok event ∷ received) =
    let rest = await_disconnect peripheral received in
    if event.peripheral == peripheral then done (ready event) else rest

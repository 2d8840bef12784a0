-- ===== src/Tests/Manager.antt =====
-- The theorems on the asynchronous central manager at concrete histories.
use corebluetooth_rs.Prelude.{
  ℕ, ◌≡◌, refl, ◌++◌, List, [], ◌∷◌, Bool, true, false, done, panic, none, Result, ok, err, arith,
}
use corebluetooth_rs.Async.Crate.{OneshotCrate, Canceled, Poll, pending, ready, first_use}
use corebluetooth_rs.Async.Central.Connect
use corebluetooth_rs.Async.Central.Connecting.{Connecting, connect_answered, connect_superseded}
use corebluetooth_rs.Async.Central.Delegate
use corebluetooth_rs.Async.Central.Discovery.{
  discover_all, dropped_scan_stops, await_disconnect_lem, events, heard, sends,
}
use corebluetooth_rs.Async.Central.Linear.{IsLinear, senders_accounted}
use corebluetooth_rs.Async.Central.Run.{
  Callback, Request, Input, callback, ask, call, request, step, run,
}
use corebluetooth_rs.Async.Central.State.{
  State, Event, PeripheralState, DidDisconnect, DidDiscover, new,
}
use corebluetooth_rs.Async.Trace.{Call}
use corebluetooth_rs.Bluetooth.Advertisement.{AdvertisementData}
use corebluetooth_rs.Bluetooth.Central
use corebluetooth_rs.Bluetooth.Options.{default_options}
use corebluetooth_rs.Error.Async.{from_canceled}

-- Peripheral 4 is connecting while peripheral 5 connects.
abbrev history : List Input
history = callback (Callback.did_connect 5) ∷ []

abbrev asked : State
asked = (Connect.connect_with_options 4 default_options new).0

abbrev connecting : State
connecting = Delegate.did_connect 5 asked

connecting-run :
    run (ask (Request.connect_with_options 4 default_options) ∷ history) new ≡ done connecting
unfolding run step request call
connecting-run = refl

four-Connecting : Connecting 4 0 connecting
unfolding run step request call new Connect.connect_with_options Delegate.register_connecting
four-Connecting = record {
  before = [];
  asked_in = new;
  reached = refl;
  options = default_options;
  sender = refl;
  after = history;
  alone = ((λ e. absurd (omega (arith, e))), tt);
  now = refl;
}

abbrev poll : List (Call Event) → ℕ → Poll (Result Event Canceled)
poll = OneshotCrate.poll (first_use Event)

connect_answered_example :
    (Connect.resume 4 PeripheralState.connecting (poll connecting.trace.calls 0) connecting
      ≡ (connecting, pending))
    × (Connect.resume 4 PeripheralState.connecting
          (poll (call (Callback.did_connect 4) connecting).trace.calls 0)
          (call (Callback.did_connect 4) connecting)
        ≡ (call (Callback.did_connect 4) connecting, ready (ok (Event.connect_result (ok tt)))))
connect_answered_example =
    connect_answered (first_use Event) 4 0 connecting four-Connecting (Callback.did_connect 4)
      (ok tt) PeripheralState.connecting refl

connect_superseded_example :
    let t = (Connect.connect_with_options 4 default_options connecting).0 in
    Connect.resume 4 PeripheralState.connecting (poll t.trace.calls 0) t
    ≡ (Delegate.tell (Central.cancel_peripheral_connection 4) t, ready (err from_canceled))
connect_superseded_example =
    connect_superseded (first_use Event) 4 0 connecting four-Connecting default_options

senders_accounted_example : IsLinear connecting
senders_accounted_example =
    senders_accounted (ask (Request.connect_with_options 4 default_options) ∷ history)
      connecting-run

-- An advertisement that is discovered after the receiver was dropped.
abbrev advertisement : AdvertisementData
advertisement = record {
  local_name = none;
  manufacturer_data = none;
  service_data = [];
  service_uuids = [];
  overflow_service_uuids = [];
  tx_power_level = none;
  is_connectable = true;
  solicited_service_uuids = [];
}

abbrev found : ℕ → DidDiscover
found rssi = record { peripheral = 6; advertisement_data = advertisement; rssi = rssi }

dropped_scan_example :
    (t : State) × (sender : ℕ) × (Delegate.scan false none false none connecting ≡ done (t, sender))
    × ((discover_all
          (heard (found 38 ∷ found 39 ∷ [])
            ++ (6, advertisement, 40, false) ∷ (6, advertisement, 41, false) ∷ [])
          t).trace.calls
        ≡ Call.close_unbounded sender
          ∷ Call.message Central.stop_scan
          ∷ Call.unbounded_send sender (Event.discover (found 40))
          ∷ sends sender (found 38 ∷ found 39 ∷ []) t.trace.calls)
dropped_scan_example =
    dropped_scan_stops none false none connecting (found 38 ∷ found 39 ∷ []) (found 40)
      ((6, advertisement, 41, false) ∷ [])

abbrev gone : ℕ → DidDisconnect
gone p = record { peripheral = p; timestamp = none; is_reconnecting = false; error = none }

disconnect_example :
    (Connect.await_disconnect {E = Bool} 4 (events (gone 5 ∷ [])) ≡ done pending)
    × (Connect.await_disconnect {E = Bool} 4 (events (gone 5 ∷ []) ++ ok (gone 4) ∷ [])
        ≡ done (ready (gone 4)))
    × (Connect.await_disconnect 4 (events (gone 5 ∷ []) ++ err true ∷ []) ≡ panic)
disconnect_example =
    await_disconnect_lem 4 (gone 5 ∷ []) [] ((λ e. absurd (omega (arith, e))), tt) (gone 4) refl
      true

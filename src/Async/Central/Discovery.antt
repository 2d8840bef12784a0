-- ===== src/Async/Central/Discovery.antt =====
-- How the scan of corebluetooth-async/src/central_manager.rs ends, and when the futures of a
-- cancelled connection are ready.
use corebluetooth_rs.Prelude.{
  ℕ, ◌≡◌, ◌≢◌, ◌∙◌, refl, ap, Bool, true, false, Option, none, some, List, [], ◌∷◌, ◌++◌, done,
  panic, Result, ok, err, arith,
}
use corebluetooth_rs.Async.Crate.{pending, ready}
use corebluetooth_rs.Async.Central.Connect
use corebluetooth_rs.Async.Central.Delegate
use corebluetooth_rs.Async.Central.State.{State, Event, DidDisconnect, DidDiscover}
use corebluetooth_rs.Async.Trace.{Call, add}
use corebluetooth_rs.Bluetooth.Advertisement.{AdvertisementData}
use corebluetooth_rs.Bluetooth.Btuuid.{BluetoothUuid}
use corebluetooth_rs.Bluetooth.Central

-- The discoveries that come, each with whether the receiver of the scan is still alive.
abbrev pub discover_all : List (ℕ × AdvertisementData × ℕ × Bool) → State → State
discover_all [] s = s
discover_all ((p, advertisement, rssi, alive) ∷ l) s =
    discover_all l (Delegate.did_discover p advertisement rssi alive s)

idle :
    (l : List (ℕ × AdvertisementData × ℕ × Bool)) (s : State)
    → s.discoveries ≡ none
    → discover_all l s ≡ s
unfolding Delegate.did_discover
idle [] s h = refl
idle ((p, advertisement, rssi, alive) ∷ l) s h = ap (discover_all l) same ∙ idle l s h
  where
    same : Delegate.did_discover p advertisement rssi alive s ≡ s
    same = rw (h, Delegate.did_discover) (ap (λ d. record s { discoveries = d }) h)

-- Discoveries while the receiver of the scan is alive, and the messages to it, the latest first.
abbrev pub heard : List DidDiscover → List (ℕ × AdvertisementData × ℕ × Bool)
heard [] = []
heard (event ∷ l) = (event.peripheral, event.advertisement_data, event.rssi, true) ∷ heard l

abbrev pub sends : ℕ → List DidDiscover → List (Call Event) → List (Call Event)
sends sender [] calls = calls
sends sender (event ∷ l) calls =
    sends sender l (Call.unbounded_send sender (Event.discover event) ∷ calls)

scanning :
    (sender : ℕ) (live : List DidDiscover) (s : State)
    → s.discoveries ≡ some sender
    → (rest : List (ℕ × AdvertisementData × ℕ × Bool))
    → (t : State) × (discover_all (heard live ++ rest) s ≡ discover_all rest t)
      × (t.discoveries ≡ some sender)
      × (t.trace.calls ≡ sends sender live s.trace.calls)
unfolding Delegate.did_discover
scanning sender [] s h rest = (s, refl, h, refl)
scanning sender (event ∷ live) s h rest =
    let (t, run, kept, calls) = scanning sender live sent refl rest in
    (t, ap (discover_all (heard live ++ rest)) one ∙ run, kept, calls)
  where
    sent : State
    sent = record s {
      discoveries = some sender;
      trace = add (Call.unbounded_send sender (Event.discover event)) s.trace;
    }

    one : Delegate.did_discover event.peripheral event.advertisement_data event.rssi true s ≡ sent
    one = rw (h, Delegate.did_discover) refl

stopped :
    (sender : ℕ) (event : DidDiscover) (l : List (ℕ × AdvertisementData × ℕ × Bool)) (t : State)
    → t.discoveries ≡ some sender
    → (discover_all
        ((event.peripheral, event.advertisement_data, event.rssi, false) ∷ l)
        t).trace.calls
      ≡ Call.close_unbounded sender
        ∷ Call.message Central.stop_scan
        ∷ Call.unbounded_send sender (Event.discover event)
        ∷ t.trace.calls
unfolding Delegate.did_discover
stopped sender event l t h =
    ap (λ u. (discover_all l u).trace.calls) last ∙ ap (λ u. u.trace.calls) (idle l closed refl)
  where
    closed : State
    closed = record t {
      discoveries = none;
      trace = add (Call.close_unbounded sender) (
          add (Call.message Central.stop_scan)
            (add (Call.unbounded_send sender (Event.discover event)) t.trace));
    }

    last :
        Delegate.did_discover event.peripheral event.advertisement_data event.rssi false t ≡ closed
    last = rw (h, Delegate.did_discover) refl

-- A scan that does not panic opens a new channel. However many discoveries are sent through it
-- while its receiver is alive, the first discovery after the receiver is dropped stops the scan and
-- drops the sender, and whatever is discovered later changes nothing.
pub dropped_scan_stops :
    (services : Option (List BluetoothUuid)) (allow_duplicates : Bool)
    (solicited : Option (List BluetoothUuid)) (s : State) (live : List DidDiscover)
    (event : DidDiscover) (l : List (ℕ × AdvertisementData × ℕ × Bool))
    → (t : State) × (sender : ℕ) × (Delegate.scan false services allow_duplicates solicited s
        ≡ done (t, sender))
      × ((discover_all
            (heard live ++ (event.peripheral, event.advertisement_data, event.rssi, false) ∷ l)
            t).trace.calls
          ≡ Call.close_unbounded sender
            ∷ Call.message Central.stop_scan
            ∷ Call.unbounded_send sender (Event.discover event)
            ∷ sends sender live t.trace.calls)
unfolding Delegate.scan Delegate.discoveries
dropped_scan_stops services allow_duplicates solicited s live event l =
    let opened =
      (Delegate.discoveries
        (Delegate.tell (Central.scan services allow_duplicates solicited) s)).0 in
    let sender = s.trace.next_unbounded in
    let last = (event.peripheral, event.advertisement_data, event.rssi, false) ∷ l in
    let (t, run, kept, calls) = scanning sender live opened refl last in
    (
      opened,
      sender,
      refl,
      ap (λ u. u.trace.calls) run
          ∙ stopped sender event l t kept
          ∙ ap
              (λ c.
                Call.close_unbounded sender
                ∷ Call.message Central.stop_scan
                ∷ Call.unbounded_send sender (Event.discover event)
                ∷ c)
              calls,
    )

abbrev pub events : {E : Type 0} → List DidDisconnect → List (Result DidDisconnect E)
events [] = []
events (event ∷ l) = ok event ∷ events l

abbrev AllOthers : ℕ → List DidDisconnect → Type 0
AllOthers p [] = Unit
AllOthers p (event ∷ l) = (event.peripheral ≢ p) × AllOthers p l

skip :
    {E : Type 0}
    → (p : ℕ) (others : List DidDisconnect) (received : List (Result DidDisconnect E))
    → AllOthers p others
    → Connect.await_disconnect p (events others ++ received) ≡ Connect.await_disconnect p received
unfolding Connect.await_disconnect
skip p [] received h = refl
skip p (event ∷ others) received h = ground (arith, skip p others received h.1)

none_yet :
    (E : Type 0) (p : ℕ) (others : List DidDisconnect)
    → AllOthers p others
    → Connect.await_disconnect {E = E} p (events others) ≡ done pending
unfolding Connect.await_disconnect
none_yet E p [] h = refl
none_yet E p (event ∷ others) h = ground (arith, none_yet E p others h.1)

-- The loop skips the disconnections of other peripherals: it waits on if there is no other so far,
-- returns the first one of this peripheral, and panics (`unreachable!()`) if the receiver fails
-- before.
pub await_disconnect_lem :
    {E : Type 0}
    → (p : ℕ) (others : List DidDisconnect) (received : List (Result DidDisconnect E))
    → AllOthers p others
    → (event : DidDisconnect) → event.peripheral ≡ p
    → (e : E)
    → (Connect.await_disconnect {E = E} p (events others) ≡ done pending)
      × (Connect.await_disconnect p (events others ++ ok event ∷ received) ≡ done (ready event))
      × (Connect.await_disconnect p (events others ++ err e ∷ received) ≡ panic)
unfolding Connect.await_disconnect
await_disconnect_lem p others received h event same e = (
  none_yet _ p others h,
  skip p others (ok event ∷ received) h ∙ ground arith,
  skip p others (err e ∷ received) h,
)

-- ===== src/Tests/Requests.antt =====
-- The theorems on the asynchronous peripheral at concrete histories.
use corebluetooth_rs.Prelude.{
  ◌≡◌, refl, ◌↔◌, List, [], ◌∷◌, done, panic, none, some, ◌++◌, Result, ok, err, arith, ℕ, Bool,
  false, true, ◌==◌, ◌⊎◌, Outcome,
}
use corebluetooth_rs.Prelude.HashMap.{get, insert}
use corebluetooth_rs.Async.Crate.{OneshotCrate, Canceled, Poll, pending, ready, first_use}
use corebluetooth_rs.Async.Broadcast.{BroadcastCrate, RecvError, received}
use corebluetooth_rs.Async.Peripheral.Announced.{Listens, MakesReceiver, topic_answered}
use corebluetooth_rs.Async.Peripheral.Callbacks
use corebluetooth_rs.Async.Peripheral.Linear.{IsLinear, run-IsLinear}
use corebluetooth_rs.Async.Peripheral.Account.{IsFree}
use corebluetooth_rs.Async.Asked
use corebluetooth_rs.Async.Asked.{ask-eq-panic_iff}
use corebluetooth_rs.Async.Peripheral.Panics.{IsFatal, call-eq-panic_iff}
use corebluetooth_rs.Async.Peripheral.Streamed.{Streams, stream_gets_values}
use corebluetooth_rs.Async.Peripheral.Values.{messages}
use corebluetooth_rs.Async.Start.{PeripheralAsync}
use corebluetooth_rs.Async.Peripheral.Replies.{Waits, request_answered, request_superseded}
use corebluetooth_rs.Async.Peripheral.Requests
use corebluetooth_rs.Async.Peripheral.Run.{
  Callback, Request, Input, callback, ask, call, request, step, run,
}
use corebluetooth_rs.Async.Peripheral.Slots.{Slot, Asks, Answers, Touches}
use corebluetooth_rs.Async.Peripheral.State.{State, Update, default}
use corebluetooth_rs.Async.Peripheral.Topics.{Topic, Subscribes, Says}
use corebluetooth_rs.Async.Trace.{Call, broadcast}
use corebluetooth_rs.Tests.Crates.{broadcast_crate}

-- Descriptor 7 of peripheral 1 is being read, and meanwhile the name changed.
abbrev renamed : Input
renamed = callback (Callback.did_update_name (some (104 ∷ 105 ∷ [])))

abbrev read : Request
read = Request.read_descriptor_value 7

abbrev reading : State
reading =
    Callbacks.did_update_name (some (104 ∷ 105 ∷ [])) (Requests.read_descriptor_value 1 7 default).0

reading-run : run 1 (ask read ∷ renamed ∷ []) default ≡ done reading
unfolding run step request call
reading-run = refl

renamed_elsewhere : ¬ Touches renamed Slot.descriptor_value 7
renamed_elsewhere (Touches.answers a) = elim a [ ]

reading-Waits : Waits 1 Slot.descriptor_value 7 0 reading
unfolding run default
reading-Waits = record {
  before = [];
  asked_in = default;
  reached = refl;
  request_made = read;
  asks = Asks.descriptor_value 7;
  sender = refl;
  after = renamed ∷ [];
  alone = (renamed_elsewhere, tt);
  now = reading-run;
}

abbrev poll : List (Call Update) → ℕ → Poll (Result Update Canceled)
poll = OneshotCrate.poll (first_use Update)

abbrev answer : Callback
answer = Callback.did_update_value_for_descriptor 7 (ok tt) (some (1 ∷ 2 ∷ []))

request_answered_example :
    (poll reading.trace.calls 0 ≡ pending)
    × (t : State) × (call answer reading ≡ done t)
    × (poll t.trace.calls 0 ≡ ready (ok (Update.bytes (ok (1 ∷ 2 ∷ [])))))
request_answered_example =
    request_answered (first_use Update) 1 Slot.descriptor_value 7 0 reading reading-Waits answer
      (Update.bytes (ok (1 ∷ 2 ∷ []))) (Answers.value_read 7 tt (1 ∷ 2 ∷ []))

request_superseded_example :
    (t : State) × (request 1 read reading ≡ done t)
    × (poll t.trace.calls 0 ≡ ready (err Canceled.canceled))
request_superseded_example =
    request_superseded (first_use Update) 1 Slot.descriptor_value 7 0 reading reading-Waits read
      (Asks.descriptor_value 7)

run-IsLinear_example : IsLinear reading
run-IsLinear_example = run-IsLinear 1 (ask read ∷ renamed ∷ []) reading-run

-- The last receiver of a characteristic's values was dropped before a value came.
abbrev subscribed : State
subscribed = elim (Requests.characteristic_value_updates 3 default) [
  | done r ↦ r.0
  | panic ↦ default
]

abbrev unheard : Callback
unheard = Callback.did_update_value_for_characteristic 3 (ok tt) (some (9 ∷ [])) 0

panic_example : (call unheard subscribed ≡ panic) ↔ IsFatal unheard subscribed
panic_example = call-eq-panic_iff unheard subscribed

unheard_panics : call unheard subscribed ≡ panic
unfolding call Callbacks.did_update_value_for_characteristic Callbacks.deliver_value
    Requests.characteristic_value_updates default get insert
unheard_panics = refl

-- The delegate in bridge 20 is of another class.
abbrev only_ten : ℕ → Bool
only_ten bridge = bridge == 10

abbrev foreign : PeripheralAsync
foreign = record { inner = record { peripheral = 1; delegate = 20 } }

asked_example : (Asked.ask only_ten foreign read reading ≡ panic) ↔ (
    ((Asked.needs_delegate read ≡ true) × (only_ten 20 ≡ false))
    ⊎ (Asked.Subscribes read × (IsFree reading → ⊥)))
asked_example = ask-eq-panic_iff only_ten foreign read reading

-- A value came, then the name changed, another characteristic's value came, and an error.
abbrev arrives : ℕ → ℕ → Input
arrives k x = callback (Callback.did_update_value_for_characteristic k (ok tt) (some (x ∷ [])) 1)

abbrev arrivals : List Input
arrivals =
    arrives 3 9
    ∷ renamed
    ∷ ask (Request.characteristic_value_updates 4)
    ∷ arrives 4 7
    ∷ arrives 3 8
    ∷ []

abbrev or_default : Outcome State → State
or_default (done s) = s
or_default panic = default

streaming : Streams 1 3 5 subscribed (or_default (run 1 arrivals subscribed))
unfolding run step request call Requests.characteristic_value_updates default get insert
    Callbacks.did_update_value_for_characteristic Callbacks.deliver_value Callbacks.did_update_name
    broadcast
streaming = record {
  before = [];
  asked_in = default;
  reached = refl;
  subscribed = refl;
  after = arrivals;
  now = refl;
}

subscriber_example :
    let s = or_default (run 1 arrivals subscribed) in
    let news = Update.bytes (ok (8 ∷ [])) ∷ Update.bytes (ok (9 ∷ [])) ∷ [] in
    (messages 5 s.trace.calls ≡ news ++ messages 5 subscribed.trace.calls)
    × (u : State) × (call
          (Callback.did_update_value_for_characteristic 3 (ok tt) (some (6 ∷ [])) 2)
          s
        ≡ done u)
    × (messages 5 u.trace.calls
        ≡ Update.bytes (ok (6 ∷ [])) ∷ news ++ messages 5 subscribed.trace.calls)
unfolding default streaming
subscriber_example =
    stream_gets_values 1 3 5 subscribed (or_default (run 1 arrivals subscribed)) streaming (ok tt)
      (some (6 ∷ [])) (ok (6 ∷ [])) 2 refl (omega arith)

-- Services are being discovered while the name changes.
abbrev discover : Request
discover = Request.discover_services none

abbrev discovering : State
discovering = (Requests.discover_services 1 none default).0

abbrev renamed_meanwhile : State
renamed_meanwhile = Callbacks.did_update_name (some (104 ∷ 105 ∷ [])) discovering

discovering-Listens : Listens 1 Topic.discovery discovering renamed_meanwhile
unfolding run step request call
discovering-Listens = record {
  before = [];
  asked_in = default;
  reached = refl;
  request_made = discover;
  subscribes = Subscribes.discovery none;
  made = refl;
  after = renamed ∷ [];
  quiet = refl;
  now = refl;
}

abbrev recv : List (Call Update) → ℕ → Poll (Result Update RecvError)
recv = BroadcastCrate.recv (broadcast_crate Update)

topic_answered_example :
    MakesReceiver Topic.discovery discovering
    × (since : List (Call Update)) × (renamed_meanwhile.trace.calls
        ≡ since ++ discovering.trace.calls)
    × (received (recv since discovering.service_discovery) ≡ pending)
    × (t : State) × (call (Callback.did_discover_services (ok tt)) renamed_meanwhile ≡ done t)
    × (now : List (Call Update)) × (t.trace.calls ≡ now ++ discovering.trace.calls)
    × (received (recv now discovering.service_discovery) ≡ ready (ok (Update.unit (ok tt))))
topic_answered_example =
    topic_answered (broadcast_crate Update) 1 Topic.discovery discovering renamed_meanwhile
      discovering-Listens (Callback.did_discover_services (ok tt)) (Update.unit (ok tt))
      (Says.discovery (ok tt))

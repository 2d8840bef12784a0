-- ===== src/Async/Peripheral/Announced.antt =====
-- What a request of corebluetooth-async/src/peripheral.rs that waits for a message of a broadcast
-- channel gets: `discover_services`, `read_rssi`, `ready_to_send_write_without_response` and the
-- streams of names and of services.
use corebluetooth_rs.Prelude.{
  ℕ, ◌+◌, ◌≡◌, refl, sym, ap, ◌∙◌, List, [], ◌∷◌, ◌++◌, done, ok, Ensures, Ensures-done,
  Ensures-mono, Ensures->>=, arith,
}
use corebluetooth_rs.Async.Broadcast.{BroadcastCrate, sent, received}
use corebluetooth_rs.Async.Crate.{pending, ready}
use corebluetooth_rs.Async.Peripheral.Callbacks
use corebluetooth_rs.Async.Peripheral.Heeded.{step-Goes}
use corebluetooth_rs.Async.Peripheral.Requests
use corebluetooth_rs.Async.Peripheral.Run.{Callback, Request, Input, ask, call, request, step, run}
use corebluetooth_rs.Async.Peripheral.Said.{Grows, Goes, silence, sent-append}
use corebluetooth_rs.Async.Peripheral.Spoken.{same_trace}
use corebluetooth_rs.Async.Peripheral.State.{State, Update, default}
use corebluetooth_rs.Async.Peripheral.Topics.{
  Topic, number, channel_of, Subscribes, Says, says, IsFixed,
}
use corebluetooth_rs.Async.Trace.{Call, Trace}
use mathlib.Core.List.{append_assoc}

-- How often the inputs say something on the topic.
abbrev pub said : List Input → Topic → ℕ
said [] topic = 0
said (input ∷ inputs) topic = says input topic + said inputs topic

Grows-sum :
    {m n : Topic → ℕ} {a b c : Trace Update}
    → Grows m a b
    → Grows n b c
    → Grows (λ topic. m topic + n topic) a c
Grows-sum {a = a} g h = record {
  new = h.new ++ g.new;
  calls = h.calls ∙ ap (λ l. h.new ++ l) g.calls ∙ sym (append_assoc h.new g.new a.calls);
  counted = λ topic.
      sent-append (number topic) h.new g.new ∙ omega (arith, h.counted topic, g.counted topic);
  next = omega (arith, g.next, h.next);
}

pub run-Goes :
    (peripheral : ℕ) (inputs : List Input) (s : State)
    → IsFixed s
    → Ensures (Goes (said inputs) s) (run peripheral inputs s)
unfolding run
run-Goes peripheral [] s h = record { fixed = h; grows = same_trace s.trace }
run-Goes peripheral (input ∷ inputs) s h =
    Ensures->>= (Goes (says input) s) (Goes (said (input ∷ inputs)) s) (step peripheral input s)
      (run peripheral inputs) (step-Goes peripheral input s h)
      (λ t goes.
        Ensures-mono (Goes (said inputs) t) _ (run peripheral inputs t)
          (run-Goes peripheral inputs t goes.fixed)
          (λ u later. record { fixed = later.fixed; grows = Grows-sum goes.grows later.grows }))

pub default-IsFixed : IsFixed default
unfolding default
default-IsFixed = record { topics = λ topic. opened topic; later = tt; next = omega arith }
  where
    opened : (topic : Topic) → channel_of topic default ≡ number topic
    opened Topic.name = refl
    opened Topic.services = refl
    opened Topic.rssi = refl
    opened Topic.discovery = refl
    opened Topic.ready_to_send = refl

-- The last call of such a request makes the receiver.
abbrev pub MakesReceiver : Topic → State → Type 0
MakesReceiver topic t =
    (earlier : List (Call Update)) × (t.trace.calls
      ≡ Call.new_receiver (channel_of topic t) ∷ earlier)

subscribes_last :
    (peripheral : ℕ) {r : Request} {topic : Topic} (sub : Subscribes r topic) (s : State)
    → Ensures (MakesReceiver topic) (request peripheral r s)
unfolding request Requests.name_updates Requests.services_changed Requests.discover_services
    Requests.read_rssi Requests.ready_to_send_write_without_response
subscribes_last peripheral Subscribes.name s = (_, refl)
subscribes_last peripheral Subscribes.services s = (_, refl)
subscribes_last peripheral Subscribes.rssi s = (_, refl)
subscribes_last peripheral (Subscribes.discovery o) s = (_, refl)
subscribes_last peripheral Subscribes.ready_to_send s = (_, refl)

says_sends :
    {c : Callback} {topic : Topic} {u : Update} (say : Says c topic u) (s : State)
    → (t : State) × (call c s ≡ done t)
      × (t.trace.calls ≡ Call.try_broadcast (channel_of topic s) u ∷ s.trace.calls)
unfolding call Callbacks.did_update_name Callbacks.did_modify_services Callbacks.did_read_rssi
    Callbacks.did_discover_services Callbacks.is_ready_to_send_write_without_response
says_sends (Says.name n) s = (_, refl, refl)
says_sends (Says.services l) s = (_, refl, refl)
says_sends (Says.rssi r) s = (_, refl, refl)
says_sends (Says.discovery r) s = (_, refl, refl)
says_sends Says.ready_to_send s = (_, refl, refl)

-- A request subscribed to a topic in a state that callbacks and requests can lead to, and after it
-- came inputs that say nothing on the topic.
pub record Listens (peripheral : ℕ) (topic : Topic) (subscribed s : State) : Type 0 where
  pub before : List Input
  pub asked_in : State
  pub reached : run peripheral before default ≡ done asked_in
  pub request_made : Request
  pub subscribes : Subscribes request_made topic
  pub made : request peripheral request_made asked_in ≡ done subscribed
  pub after : List Input
  pub quiet : said after topic ≡ 0
  pub now : run peripheral after subscribed ≡ done s

module _ (peripheral : ℕ) {topic : Topic} {subscribed s : State}
    (w : Listens peripheral topic subscribed s) where
  subscribed-IsFixed : IsFixed subscribed
  unfolding run step
  subscribed-IsFixed =
      let reached =
        Ensures-done (Goes (said w.before) default) _
          (run-Goes peripheral w.before default default-IsFixed) w.reached in
      (Ensures-done (Goes silence w.asked_in) _
        (step-Goes peripheral (ask w.request_made) w.asked_in reached.fixed) w.made).fixed

  since-Goes : Goes (said w.after) subscribed s
  since-Goes =
      Ensures-done (Goes (said w.after) subscribed) _
        (run-Goes peripheral w.after subscribed subscribed-IsFixed) w.now

-- A request for the next message of a topic makes its receiver last, and is pending while nothing is
-- said on the topic, whatever else happens. The first callback of the topic does not panic, and
-- sends the request its message.
pub topic_answered :
    (crate : BroadcastCrate Update) (peripheral : ℕ) (topic : Topic) (subscribed s : State)
    → Listens peripheral topic subscribed s
    → (c : Callback) (u : Update) → Says c topic u
    → MakesReceiver topic subscribed
      × (since : List (Call Update)) × (s.trace.calls ≡ since ++ subscribed.trace.calls)
      × (received (crate.recv since (channel_of topic subscribed)) ≡ pending)
      × (t : State) × (call c s ≡ done t)
      × (now : List (Call Update)) × (t.trace.calls ≡ now ++ subscribed.trace.calls)
      × (received (crate.recv now (channel_of topic subscribed)) ≡ ready (ok u))
unfolding received
topic_answered crate peripheral topic subscribed s w c u say =
    let goes = since-Goes peripheral w in
    let since = goes.grows.new in
    let channel = channel_of topic subscribed in
    let opened = (subscribed-IsFixed peripheral w).topics topic in
    let silent : sent channel since ≡ 0 =
      ap (λ n. sent n since) opened ∙ goes.grows.counted topic ∙ w.quiet in
    let (t, called, calls) = says_sends say s in
    (
      Ensures-done (MakesReceiver topic) _ (subscribes_last peripheral w.subscribes w.asked_in)
          w.made,
      since,
      goes.grows.calls,
      ap received (crate.recv_none since channel silent),
      t,
      called,
      Call.try_broadcast channel u ∷ since,
      calls
          ∙ ap (λ n. Call.try_broadcast n u ∷ s.trace.calls) (goes.fixed.topics topic ∙ sym opened)
          ∙ ap (λ l. Call.try_broadcast channel u ∷ l) goes.grows.calls,
      ap received (crate.recv_first since channel u silent),
    )

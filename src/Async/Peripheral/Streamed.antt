-- ===== src/Async/Peripheral/Streamed.antt =====
-- The stream of the values of a characteristic (corebluetooth-async/src/peripheral.rs), from the
-- subscription on.
use mathlib.Core.List.{append_assoc}
use corebluetooth_rs.Prelude.{
  ℕ, ◌<◌, ◌≡◌, refl, ap, sym, ◌∙◌, Option, some, List, [], ◌∷◌, ◌++◌, Outcome, done, panic, Ensures,
  Ensures->>=, Ensures-mono, Ensures-done, Returns-done, if◌then◌else◌, ◌==◌, arith,
}
use corebluetooth_rs.Prelude.Bytes.{Bytes}
use corebluetooth_rs.Prelude.HashMap.{get}
use corebluetooth_rs.Async.Peripheral.Announced.{default-IsFixed}
use corebluetooth_rs.Async.Peripheral.Callbacks
use corebluetooth_rs.Async.Peripheral.Delivered.{callback-Hears}
use corebluetooth_rs.Async.Peripheral.Heeded.{step-Goes, subscribed-Goes}
use corebluetooth_rs.Async.Peripheral.Panics.{delivered}
use corebluetooth_rs.Async.Peripheral.Requests
use corebluetooth_rs.Async.Peripheral.Run.{Callback, Input, callback, ask, call, step, run}
use corebluetooth_rs.Async.Peripheral.Said.{Goes, silence}
use corebluetooth_rs.Async.Peripheral.State.{State, Update, CbResult, default}
use corebluetooth_rs.Async.Peripheral.Subscribed.{request-Hears, subscribed-Hears}
use corebluetooth_rs.Async.Peripheral.Topics.{IsFixed, says}
use corebluetooth_rs.Async.Peripheral.Values.{
  values, all_values, messages, IsApart, Hears, quiet, unchanged,
}

Ensures-both :
    {A : Type 0} (P Q : A → Type 0) (m : Outcome A)
    → Ensures P m
    → Ensures Q m
    → Ensures (λ a. P a × Q a) m
Ensures-both P Q (done a) p q = (p, q)
Ensures-both P Q panic p q = tt

Hears-trans :
    {m n : ℕ → List Update} {s t u : State}
    → Hears m s t
    → Hears n t u
    → Hears (λ k. n k ++ m k) s u
Hears-trans {m} {n} {s} h g = record {
  apart = g.apart;
  kept = λ k channel e. g.kept k channel (h.kept k channel e);
  heard = λ k channel e.
      g.heard k channel (h.kept k channel e)
      ∙ ap (λ l. n k ++ l) (h.heard k channel e)
      ∙ sym (append_assoc (n k) (m k) (messages channel s.trace.calls));
}

step-Hears :
    (peripheral : ℕ) (input : Input) (s : State)
    → IsFixed s
    → IsApart s
    → Ensures (λ t. IsFixed t × Hears (values input) s t) (step peripheral input s)
unfolding step
step-Hears peripheral input s f a =
    Ensures-both IsFixed (Hears (values input) s) (step peripheral input s)
      (Ensures-mono (Goes (says input) s) IsFixed (step peripheral input s)
        (step-Goes peripheral input s f) (λ t goes. goes.fixed))
      (heard input)
  where
    heard : (input : Input) → Ensures (Hears (values input) s) (step peripheral input s)
    heard (callback c) = callback-Hears c s f a
    heard (ask r) = request-Hears peripheral r s f a

run-Hears :
    (peripheral : ℕ) (inputs : List Input) (s : State)
    → IsFixed s
    → IsApart s
    → Ensures (λ t. IsFixed t × Hears (all_values inputs) s t) (run peripheral inputs s)
unfolding run
run-Hears peripheral [] s f a = (f, quiet s f a refl (unchanged s.trace))
run-Hears peripheral (input ∷ inputs) s f a =
    Ensures->>= (λ t. IsFixed t × Hears (values input) s t) _ (step peripheral input s)
      (run peripheral inputs) (step-Hears peripheral input s f a)
      (λ t one.
        Ensures-mono (λ u. IsFixed u × Hears (all_values inputs) t u) _ (run peripheral inputs t)
          (run-Hears peripheral inputs t one.0 one.1.apart)
          (λ u later. (later.0, Hears-trans one.1 later.1)))

default-IsApart : IsApart default
unfolding default get
default-IsApart = record {
  old = λ k channel h. absurd (cc);
  apart = λ j k channel h g. absurd (cc);
}

-- A program subscribes to the values of a characteristic in a state that callbacks and requests can
-- lead to, and then others come in any order.
pub record Streams (peripheral k sender : ℕ) (t s : State) : Type 0 where
  pub before : List Input
  pub asked_in : State
  pub reached : run peripheral before default ≡ done asked_in
  pub subscribed : Requests.characteristic_value_updates k asked_in ≡ done (t, sender)
  pub after : List Input
  pub now : run peripheral after t ≡ done s

module _ {peripheral k sender : ℕ} {t s : State} (w : Streams peripheral k sender t s) where
  reached-Hears : IsFixed w.asked_in × IsApart w.asked_in
  reached-Hears =
      let (f, h) =
        Ensures-done _ _ (run-Hears peripheral w.before default default-IsFixed default-IsApart)
          w.reached in
      (f, h.apart)

  subscribed_here :
      IsFixed t × IsApart t × (get k t.characteristic_value_updates.value ≡ some sender)
  subscribed_here =
      let (f, a) = reached-Hears in
      let goes =
        Ensures-done (λ r. Goes silence w.asked_in r.0) _ (subscribed-Goes k w.asked_in f)
          w.subscribed in
      let (h, here) = Ensures-done _ _ (subscribed-Hears k w.asked_in a) w.subscribed in
      (goes.fixed, h.apart, here)

  since-Hears : IsFixed s × Hears (all_values w.after) t s
  since-Hears =
      let (f, a, here) = subscribed_here in
      Ensures-done _ _ (run-Hears peripheral w.after t f a) w.now

-- From its subscription on, the channel of a characteristic's subscriber is sent each value that
-- arrives for the characteristic, or error that comes in its place, in the order in which they
-- arrive, and nothing else, whatever other callbacks and requests come in between without a panic.
-- The next value that arrives while a receiver is left does not panic, and is sent as well.
pub stream_gets_values :
    (peripheral k sender : ℕ) (t s : State) (w : Streams peripheral k sender t s)
    (r : CbResult (Unit {0})) (v : Option Bytes) (update : CbResult Bytes) (n : ℕ)
    → Callbacks.read_value r v ≡ done update
    → 0 < n
    → (messages sender s.trace.calls ≡ all_values w.after k ++ messages sender t.trace.calls)
      × (u : State) × (call (Callback.did_update_value_for_characteristic k r v n) s ≡ done u)
      × (messages sender u.trace.calls
          ≡ Update.bytes (Callbacks.convert update) ∷ all_values w.after k
            ++ messages sender t.trace.calls)
unfolding call
stream_gets_values peripheral k sender t s w r v update n e left =
    let (f, a, here) = subscribed_here w in
    let (fixed, hears) = since-Hears w in
    let all = hears.heard k sender here in
    let (u, called, after) =
      Returns-done _ (Callbacks.did_update_value_for_characteristic k r v n s)
        (delivered k sender r v update n s (hears.kept k sender here) e left) in
    (
      all,
      u,
      called,
      ap (messages sender) after.0
          ∙ itself sender (messages sender s.trace.calls)
          ∙ ap (λ l. Update.bytes (Callbacks.convert update) ∷ l) all,
    )
  where
    itself :
        (c : ℕ) (l : List Update)
        → (if c == c then Update.bytes (Callbacks.convert update) ∷ l else l)
          ≡ Update.bytes (Callbacks.convert update) ∷ l
    itself c l = ground arith

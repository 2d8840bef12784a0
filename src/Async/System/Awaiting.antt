-- ===== src/Async/System/Awaiting.antt =====
-- A request that waits while things happen to both crates, and the step in which CoreBluetooth
-- tells the bridge (corebluetooth/src/peripheral.rs) of the peripheral what answers it.
use mathlib.Core.Path.{subst}
use corebluetooth_rs.Prelude.{
  ℕ, ◌≡◌, ◌≢◌, refl, sym, ap, ◌∙◌, none, some, List, ◌∷◌, Outcome, done, ok, Ensures-done,
  Option-cases, inl, inr, ◌==◌, true, arith,
}
use corebluetooth_rs.Prelude.HashMap.{get, insert}
use corebluetooth_rs.Async.Crate.{OneshotCrate, pending, ready}
use corebluetooth_rs.Async.Peripheral.Replies.{Untouched, Waits, Waits-waiter, request_answered}
use corebluetooth_rs.Async.Peripheral.Run
use corebluetooth_rs.Async.Peripheral.Run.{Request, ask}
use corebluetooth_rs.Async.Peripheral.Slots.{Slot, waiter, Asks, Answers}
use corebluetooth_rs.Async.Peripheral.State.{State, Update, default}
use corebluetooth_rs.Async.System.Adopted.{Owns, state_of}
use corebluetooth_rs.Async.System.Follows.{run-state_of, run_from-Follows, start-Owns}
use corebluetooth_rs.Async.System.Heard.{Reading, heard}
use corebluetooth_rs.Async.System.Owned.{inserted_state}
use corebluetooth_rs.Async.System.Split.{Follows, inputs_of, input_of}
use corebluetooth_rs.Async.System.Step
use corebluetooth_rs.Async.System.Step.{System, Event, step, run, start, run_delegate}
use corebluetooth_rs.Bluetooth.Bridge
use corebluetooth_rs.Bluetooth.Bridge.{bridge_of, converted, Told}
use corebluetooth_rs.Bluetooth.Btuuid.{BtuuidCrate}

own_input :
    (q : ℕ) (request : Request) (after : List Event)
    → inputs_of q (Step.ask q request ∷ after) ≡ ask request ∷ inputs_of q after
unfolding inputs_of input_of
own_input q request after = rw (itself q) refl
  where
    itself : (n : ℕ) → (n == n) ≡ true
    itself n = ground arith

-- A request was made of a peripheral that the crates came to know, and after it only events that
-- mean nothing for its slot and object.
pub record Asked (btuuid : BtuuidCrate) (q : ℕ) (slot : Slot) (k id : ℕ) (sys : System)
    : Type 0 where
  pub before : List Event
  pub asked_in : System
  pub reached : run btuuid before start ≡ done asked_in
  pub request_made : Request
  pub asks : Asks request_made slot k
  pub sender : id ≡ (state_of q asked_in).trace.next
  pub after : List Event
  pub alone : Untouched (inputs_of q after) slot k
  pub now : run btuuid (Step.ask q request_made ∷ after) asked_in ≡ done sys

module _ {btuuid : BtuuidCrate} {q : ℕ} {slot : Slot} {k id : ℕ} {sys : System}
    (asked : Asked btuuid q slot k id sys) where
  asked_in-Owns : Owns asked.asked_in
  asked_in-Owns =
      (Ensures-done (Follows q start (inputs_of q asked.before)) _
        (run_from-Follows btuuid q asked.before start start-Owns) asked.reached).0

  Asked-Follows : Follows q asked.asked_in (ask asked.request_made ∷ inputs_of q asked.after) sys
  Asked-Follows =
      subst (λ inputs. Follows q asked.asked_in inputs sys)
        (own_input q asked.request_made asked.after)
        (Ensures-done
          (Follows q asked.asked_in (inputs_of q (Step.ask q asked.request_made ∷ asked.after))) _
          (run_from-Follows btuuid q (Step.ask q asked.request_made ∷ asked.after) asked.asked_in
            asked_in-Owns)
          asked.now)

  Asked-Waits : Waits q slot k id (state_of q sys)
  Asked-Waits = record {
    before = inputs_of q asked.before;
    asked_in = state_of q asked.asked_in;
    reached = run-state_of btuuid q asked.before asked.reached;
    request_made = asked.request_made;
    asks = asked.asks;
    sender = asked.sender;
    after = inputs_of q asked.after;
    alone = asked.alone;
    now = Asked-Follows.1;
  }

-- The delegate of a peripheral with a request that waits is in a bridge.
no_bridge :
    (slot : Slot) (k id : ℕ) (q : ℕ) (sys : System)
    → bridge_of q sys.bridges ≡ none
    → waiter slot k (state_of q sys) ≢ some id
unfolding state_of default get
no_bridge slot k id q sys e w = nothing_waits slot (ap (waiter slot k) (sym new) ∙ w)
  where
    new : state_of q sys ≡ default
    new = rw e refl

    nothing_waits : (slot : Slot) → waiter slot k default ≢ some id
    nothing_waits Slot.included_services h = absurd (cc)
    nothing_waits _ h = absurd (cc)

pub told_at :
    (btuuid : BtuuidCrate) (q b : ℕ) (raw : Bridge.Raw) (reading : Reading) (sys : System)
    {told : Told}
    → bridge_of q sys.bridges ≡ some b
    → converted raw ≡ done told
    → step btuuid (Step.told q raw reading) sys ≡ run_delegate b (Run.call (heard reading told)) sys
unfolding step Bridge.bridged Bridge.new
told_at btuuid q b raw reading sys e f = rw (e, f) refl

pub delegate_steps :
    (b q : ℕ) (f : State → Outcome State) (sys : System) {t : State}
    → Owns sys
    → bridge_of q sys.bridges ≡ some b
    → f (state_of q sys) ≡ done t
    → (after : System) × (run_delegate b f sys ≡ done after) × (state_of q after ≡ t)
unfolding run_delegate state_of
delegate_steps b q f sys {t} h own called =
    let (s, stored) = h.present q b own in
    (
      record sys { delegates = insert b t sys.delegates },
      rw (stored, ap f (sym (now s stored)) ∙ called) refl,
      inserted_state h q b own t,
    )
  where
    now : (s : State) → get b sys.delegates ≡ some s → state_of q sys ≡ s
    now s stored = rw (own, stored) refl

-- What the bridge is told comes to a callback that answers the slot: nothing panics, and the future
-- that was pending is resolved.
pub answer_told :
    (crate : OneshotCrate Update) (btuuid : BtuuidCrate) (q : ℕ) (slot : Slot) (k id : ℕ)
    (sys : System)
    → Asked btuuid q slot k id sys
    → (raw : Bridge.Raw) (reading : Reading) {told : Told} (u : Update) → converted raw ≡ done told
    → Answers (heard reading told) slot k u
    → (crate.poll (state_of q sys).trace.calls id ≡ pending)
      × (t : System) × (step btuuid (Step.told q raw reading) sys ≡ done t)
      × (crate.poll (state_of q t).trace.calls id ≡ ready (ok u))
answer_told crate btuuid q slot k id sys asked raw reading {told} u conversion answers =
    let waits = Asked-Waits asked in
    let (open_before, after, called, answered) =
      request_answered crate q slot k id (state_of q sys) waits (heard reading told) _ answers in
    elim (Option-cases (bridge_of q sys.bridges)) [
      | inl absent ↦ absurd (no_bridge slot k id q sys absent (Waits-waiter waits))
      | inr (b, own) ↦
          let (t, stepped, state) =
            delegate_steps b q (Run.call (heard reading told)) sys (Asked-Follows asked).0 own
              called in
          (
            open_before,
            t,
            told_at btuuid q b raw reading sys own conversion ∙ stepped,
            ap (λ s. crate.poll s.trace.calls id) state ∙ answered,
          )
    ]

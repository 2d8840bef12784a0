-- ===== src/Async/Peripheral/Replies.antt =====
-- What the future of a request of corebluetooth-async/src/peripheral.rs resolves to.
use corebluetooth_rs.Prelude.{
  ℕ, ◌≡◌, refl, sym, ap, ◌∙◌, some, List, [], ◌∷◌, done, ok, err, Ensures, Ensures->>=,
  Ensures-done, Ensures-mono,
}
use corebluetooth_rs.Async.Crate.{OneshotCrate, pending, ready, canceled}
use corebluetooth_rs.Async.Peripheral.Linear.{IsLinear, run-IsLinear, run_from-IsLinear}
use corebluetooth_rs.Async.Peripheral.Run.{Callback, Request, Input, ask, call, request, step, run}
use corebluetooth_rs.Async.Peripheral.Slots.{Slot, waiter, Asks, Answers, Touches}
use corebluetooth_rs.Async.Peripheral.State.{State, Update, default}
use corebluetooth_rs.Async.Peripheral.Untouched.{step-Keeps}
use corebluetooth_rs.Async.Peripheral.CallbackKeeps.{Keeps}
use corebluetooth_rs.Async.Trace.{settled}
use corebluetooth_rs.Async.Peripheral.Senders.{
  asked_waits, answered_sends, waiting_unused, asked_drops,
}

-- None of the inputs asks or answers the slot for the object.
abbrev pub Untouched : List Input → Slot → ℕ → Type 0
Untouched [] slot k = Unit
Untouched (input ∷ inputs) slot k = (¬ Touches input slot k) × Untouched inputs slot k

waits_on :
    (peripheral : ℕ) (inputs : List Input) (slot : Slot) (k : ℕ) (s : State)
    → Untouched inputs slot k
    → Ensures (Keeps slot k s) (run peripheral inputs s)
unfolding run
waits_on peripheral [] slot k s h = refl
waits_on peripheral (input ∷ inputs) slot k s h =
    Ensures->>= (Keeps slot k s) (Keeps slot k s) (step peripheral input s) (run peripheral inputs)
      (step-Keeps peripheral input slot k s h.0)
      (λ t kept.
        Ensures-mono (Keeps slot k t) (Keeps slot k s) (run peripheral inputs t)
          (waits_on peripheral inputs slot k t h.1) (λ u later. later ∙ kept))

-- A request was made in a state that callbacks and requests can lead to, and after it only inputs
-- that leave its slot alone.
pub record Waits (peripheral : ℕ) (slot : Slot) (k id : ℕ) (s : State) : Type 0 where
  pub before : List Input
  pub asked_in : State
  pub reached : run peripheral before default ≡ done asked_in
  pub request_made : Request
  pub asks : Asks request_made slot k
  pub sender : id ≡ asked_in.trace.next
  pub after : List Input
  pub alone : Untouched after slot k
  pub now : run peripheral (ask request_made ∷ after) asked_in ≡ done s

pub Waits-waiter :
    {peripheral : ℕ} {slot : Slot} {k id : ℕ} {s : State}
    → Waits peripheral slot k id s
    → waiter slot k s ≡ some id
unfolding run step
Waits-waiter {peripheral} {slot} {k} {id} {s} w =
    Ensures-done (λ t. waiter slot k t ≡ some id)
      (run peripheral (ask w.request_made ∷ w.after) w.asked_in)
      (Ensures->>= (λ t. waiter slot k t ≡ some w.asked_in.trace.next)
        (λ t. waiter slot k t ≡ some id) (request peripheral w.request_made w.asked_in)
        (run peripheral w.after) (asked_waits peripheral w.asks w.asked_in)
        (λ t there.
          Ensures-mono (Keeps slot k t) (λ u. waiter slot k u ≡ some id) (run peripheral w.after t)
            (waits_on peripheral w.after slot k t w.alone)
            (λ u kept. kept ∙ there ∙ ap some (sym w.sender))))
      w.now

Waits-IsLinear :
    {peripheral : ℕ} {slot : Slot} {k id : ℕ} {s : State}
    → Waits peripheral slot k id s
    → IsLinear s
Waits-IsLinear {peripheral} {s = s} w =
    Ensures-done IsLinear (run peripheral (ask w.request_made ∷ w.after) w.asked_in)
      (run_from-IsLinear peripheral (ask w.request_made ∷ w.after) w.asked_in
        (run-IsLinear peripheral w.before w.reached))
      w.now

module _ (crate : OneshotCrate Update) (peripheral : ℕ) (slot : Slot) (k id : ℕ) (s : State) where
  unused : Waits peripheral slot k id s → settled id s.trace.calls ≡ 0
  unused w = waiting_unused slot k id s (Waits-IsLinear w) (Waits-waiter w)

  -- The future of a request is pending while no input asks or answers its slot for its object,
  -- whatever else happens; the callback that answers the slot does not panic, and right after it
  -- the future resolves to the answer of that callback.
  pub request_answered :
      Waits peripheral slot k id s
      → (c : Callback) (u : Update) → Answers c slot k u
      → (crate.poll s.trace.calls id ≡ pending)
        × (t : State) × (call c s ≡ done t)
        × (crate.poll t.trace.calls id ≡ ready (ok u))
  request_answered w c u a =
      let (t, called, calls) = answered_sends a id s (Waits-waiter w) in
      (
        crate.poll_open s.trace.calls id (unused w),
        t,
        called,
        ap (λ l. crate.poll l id) calls ∙ crate.poll_sent [] s.trace.calls id u (unused w),
      )

  -- A second request for the same slot and object replaces the first: the future of the first
  -- resolves to `Canceled` at once.
  pub request_superseded :
      Waits peripheral slot k id s
      → (r : Request) → Asks r slot k
      → (t : State) × (request peripheral r s ≡ done t)
        × (crate.poll t.trace.calls id ≡ ready (err canceled))
  request_superseded w r a =
      let (t, made, earlier, calls, same) = asked_drops peripheral a id s (Waits-waiter w) in
      (t, made, ap (λ l. crate.poll l id) calls ∙ crate.poll_closed [] earlier id (same ∙ unused w))

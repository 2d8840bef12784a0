-- ===== src/Async/System/Split.antt =====
-- What one peripheral's delegate sees of all that happens to the crates together
-- (corebluetooth/src/peripheral.rs, corebluetooth-async/src/peripheral.rs).
use mathlib.Core.Path.{subst}
use corebluetooth_rs.Prelude.{
  ℕ, ◌≡◌, refl, sym, ap, ◌∙◌, some, List, [], ◌∷◌, ◌++◌, Outcome, done, panic, ◌>>=◌, Ensures,
  Bool-cases, inl, inr, ◌==◌, if◌then◌else◌, arith, true,
}
use corebluetooth_rs.Prelude.HashMap.{insert}
use corebluetooth_rs.Async.Peripheral.Run
use corebluetooth_rs.Async.Peripheral.Run.{Input, callback, ask}
use corebluetooth_rs.Async.Peripheral.State.{State}
use corebluetooth_rs.Async.System.Heard.{Reading, heard}
use corebluetooth_rs.Async.System.Owned.{IsOwned-insert, inserted_state, others_state}
use corebluetooth_rs.Async.System.Adopted.{Owns, state_of, adopt-Owns, adopt-state_of}
use corebluetooth_rs.Async.System.Step
use corebluetooth_rs.Async.System.Step.{
  System, Event, adopt, with_delegate, step, run, start, run_delegate,
}
use corebluetooth_rs.Bluetooth.Bridge.{bridge_of, Told, converted}

-- What an event means for the delegate of the peripheral `q`.
abbrev pub message : Outcome Told → Reading → List Input
message (done told) reading = callback (heard reading told) ∷ []
message panic reading = []

unfoldable pub input_of : ℕ → Event → List Input
unfolding heard converted
input_of q (Step.told p raw reading) = if p == q then message (converted raw) reading else []
input_of q (Step.ask p request) = if p == q then ask request ∷ [] else []
input_of q _ = []

unfoldable pub inputs_of : ℕ → List Event → List Input
inputs_of q [] = []
inputs_of q (event ∷ events) = input_of q event ++ inputs_of q events

module _ (q : ℕ) where
  -- The delegates stay apart, and that of `q` goes on as the inputs say.
  abbrev pub Follows : System → List Input → System → Type 0
  Follows sys inputs t = Owns t × (Run.run q inputs (state_of q sys) ≡ done (state_of q t))

  pub unchanged : (sys : System) → Owns sys → Follows sys [] sys
  unfolding Run.run
  unchanged sys h = (h, refl)

  pub adopted : (p : ℕ) (sys : System) → Owns sys → Follows sys [] (adopt p sys)
  unfolding Run.run
  adopted p sys h = (adopt-Owns p sys h, ap done (sym (adopt-state_of p q sys h)))

  -- The delegate in the bridge of `p` takes an input of `p`.
  stepped :
      (p b : ℕ) (input : Input) (sys : System) (s : State)
      → Owns sys
      → bridge_of p sys.bridges ≡ some b
      → state_of p sys ≡ s
      → (m : Outcome State) → m ≡ Run.step p input s
      → Ensures
          (Follows sys (if p == q then input ∷ [] else []))
          (◌>>=◌ {B = System} m (λ s'. done (record sys { delegates = insert b s' sys.delegates })))
  unfolding Run.run state_of
  stepped p b input sys s h own now panic e = tt
  stepped p b input sys s h own now (done s') e = (
    IsOwned-insert h p b own s',
    elim (Bool-cases (p == q)) [
      | inl f ↦ rw f (
          subst (λ r. Run.run r (input ∷ []) (state_of r sys) ≡ done (state_of r after)) (same f)
            itself)
      | inr f ↦ rw f (ap done (sym (others_state h p b own s' q (ground arith))))
    ],
  )
    where
      after : System
      after = record sys { delegates = insert b s' sys.delegates }

      same : (p == q) ≡ true → p ≡ q
      same f = ground arith

      itself : Run.run p (input ∷ []) (state_of p sys) ≡ done (state_of p after)
      itself =
          ap (λ s. ◌>>=◌ {B = State} (Run.step p input s) (Run.run p [])) now
          ∙ ap (λ m. ◌>>=◌ {B = State} m (Run.run p [])) (sym e)
          ∙ ap done (sym (inserted_state h p b own s'))

  pub delegate-Follows :
      (p b : ℕ) (input : Input) (sys : System)
      → Owns sys
      → bridge_of p sys.bridges ≡ some b
      → Ensures
          (Follows sys (if p == q then input ∷ [] else []))
          (run_delegate b (Run.step p input) sys)
  unfolding run_delegate state_of
  delegate-Follows p b input sys h own =
      let (s, stored) = h.present p b own in
      rw stored (stepped p b input sys s h own (rw (own, stored) refl) (Run.step p input s) refl)

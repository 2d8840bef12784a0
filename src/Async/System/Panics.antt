-- ===== src/Async/System/Panics.antt =====
-- When a method of the bridge of a peripheral (corebluetooth/src/peripheral.rs) panics, the method
-- of the delegate in it (corebluetooth-async/src/peripheral.rs) that it calls included.
use corebluetooth_rs.Prelude.{
  ℕ, ◌≡◌, refl, sym, ap, ◌∙◌, ◌↔◌, ◌⊎◌, inl, inr, none, some, List, Outcome, done, panic,
  Ensures-done, Option-cases,
}
use corebluetooth_rs.Prelude.HashMap.{get}
use corebluetooth_rs.Async.Peripheral.Panics.{IsFatal, call-eq-panic_iff}
use corebluetooth_rs.Async.Peripheral.Run
use corebluetooth_rs.Async.Peripheral.State.{State}
use corebluetooth_rs.Async.System.Adopted.{Owns, state_of}
use corebluetooth_rs.Async.System.Awaiting.{told_at, delegate_steps}
use corebluetooth_rs.Async.System.Follows.{run_from-Follows, start-Owns}
use corebluetooth_rs.Async.System.Heard.{Reading, heard}
use corebluetooth_rs.Async.System.Split.{Follows, inputs_of}
use corebluetooth_rs.Async.System.Step
use corebluetooth_rs.Async.System.Step.{System, Event, step, run, start, run_delegate}
use corebluetooth_rs.Bluetooth.Bridge
use corebluetooth_rs.Bluetooth.Bridge.{bridge_of, converted, Told}
use corebluetooth_rs.Bluetooth.Bridged.{IsBroken, Outcome-cases, converted_panics}
use corebluetooth_rs.Bluetooth.Btuuid.{BtuuidCrate}

-- The callback that the bridge comes to is fatal to the delegate of the peripheral.
abbrev pub IsFatalTo : ℕ → Bridge.Raw → Reading → System → Type 0
IsFatalTo q raw reading sys =
    (told : Told) × (converted raw ≡ done told) × IsFatal (heard reading told) (state_of q sys)

delegate_panics :
    (b q : ℕ) (f : State → Outcome State) (sys : System)
    → Owns sys
    → bridge_of q sys.bridges ≡ some b
    → f (state_of q sys) ≡ panic
    → run_delegate b f sys ≡ panic
unfolding run_delegate state_of
delegate_panics b q f sys h own called =
    let (s, stored) = h.present q b own in rw (stored, ap f (sym (now s stored)) ∙ called) refl
  where
    now : (s : State) → get b sys.delegates ≡ some s → state_of q sys ≡ s
    now s stored = rw (own, stored) refl

not_converted :
    (btuuid : BtuuidCrate) (q : ℕ) (raw : Bridge.Raw) (reading : Reading) (sys : System)
    → converted raw ≡ panic
    → step btuuid (Step.told q raw reading) sys ≡ panic
unfolding step Bridge.bridged
not_converted btuuid q raw reading sys e = rw e refl

unowned :
    (btuuid : BtuuidCrate) (q : ℕ) (raw : Bridge.Raw) (reading : Reading) (sys : System)
    (told : Told)
    → converted raw ≡ done told
    → bridge_of q sys.bridges ≡ none
    → step btuuid (Step.told q raw reading) sys ≡ panic
unfolding step Bridge.bridged Bridge.new
unowned btuuid q raw reading sys told e f = rw (e, f) refl

pub told-eq-panic_iff :
    (btuuid : BtuuidCrate) (events : List Event) {sys : System}
    → run btuuid events start ≡ done sys
    → (q : ℕ) (raw : Bridge.Raw) (reading : Reading)
    → (step btuuid (Step.told q raw reading) sys ≡ panic)
      ↔ ((bridge_of q sys.bridges ≡ none) ⊎ (IsBroken raw ⊎ IsFatalTo q raw reading sys))
told-eq-panic_iff btuuid events {sys} reached q raw reading = elim (Outcome-cases (converted raw)) [
  | inl e ↦
      (λ p. inr (inl ((converted_panics raw).0 e)), λ h. not_converted btuuid q raw reading sys e)
  | inr (told, e) ↦ elim (Option-cases (bridge_of q sys.bridges)) [
    | inl f ↦ (λ p. inl f, λ h. unowned btuuid q raw reading sys told e f)
    | inr (b, f) ↦ owned told b e f (Outcome-cases (call told (state_of q sys)))
  ]
]
  where
    owns : Owns sys
    owns =
        (Ensures-done (Follows q start (inputs_of q events)) _
          (run_from-Follows btuuid q events start start-Owns) reached).0

    call : Told → State → Outcome State
    call told = Run.call (heard reading told)

    owned :
        (told : Told) (b : ℕ)
        → converted raw ≡ done told
        → bridge_of q sys.bridges ≡ some b
        → (call told (state_of q sys) ≡ panic)
          ⊎ ((t : State) × (call told (state_of q sys) ≡ done t))
        → (step btuuid (Step.told q raw reading) sys ≡ panic)
          ↔ ((bridge_of q sys.bridges ≡ none) ⊎ (IsBroken raw ⊎ IsFatalTo q raw reading sys))
    owned told b e f (inl p) = (
      λ stepped. inr (inr (told, e, (call-eq-panic_iff (heard reading told) (state_of q sys)).0 p)),
      λ h. told_at btuuid q b raw reading sys f e ∙ delegate_panics b q (call told) sys owns f p,
    )
    owned told b e f (inr (t, d)) =
        let (after, stepped, state) = delegate_steps b q (call told) sys owns f d in
        let runs = told_at btuuid q b raw reading sys f e ∙ stepped in
        (
          λ p. absurd (cc (runs, p)),
          λ h. elim h [
            | inl none_there ↦ absurd (cc (none_there, f))
            | inr (inl broken) ↦ absurd (cc (e, (converted_panics raw).1 broken))
            | inr (inr (other, g, fatal)) ↦
                let same : other ≡ told = cc (e, g) in
                absurd
                  (cc (d, same, (call-eq-panic_iff (heard reading other) (state_of q sys)).1 fatal))
          ],
        )

-- ===== src/Async/Asked.antt =====
-- When a method of `PeripheralAsync` (corebluetooth-async/src/peripheral.rs) panics, before it
-- waits.
use corebluetooth_rs.Prelude.{
  ℕ, ◌≡◌, ◌↔◌, ◌⊎◌, inl, inr, refl, Bool, true, false, Outcome, done, panic, ◌>>=◌, ◌==◌,
  if◌then◌else◌, arith, Bool-cases, Option-cases,
}
use corebluetooth_rs.Prelude.HashMap.{get}
use corebluetooth_rs.Async.Peripheral.Account.{IsFree}
use corebluetooth_rs.Async.Peripheral.Requests
use corebluetooth_rs.Async.Peripheral.Run.{Request, request}
use corebluetooth_rs.Async.Peripheral.State.{State}
use corebluetooth_rs.Bluetooth.Peripheral
use corebluetooth_rs.Async.Start.{PeripheralAsync, delegate}

-- Only `ready_to_send_write_without_response` can do without the delegate.
abbrev pub needs_delegate : Request → Bool
needs_delegate (Request.ready_to_send_write_without_response true) = false
needs_delegate _ = true

-- A method on the delegate that it finds, whose state this is.
unfoldable pub ask : (ℕ → Bool) → PeripheralAsync → Request → State → Outcome State
unfolding delegate
ask is_async self r s = do
  _ ← if needs_delegate r then delegate is_async self else done self.inner.delegate
  request self.inner.peripheral r s

-- The requests that change the map of the characteristics' channels.
abbrev pub Subscribes : Request → Type 0
Subscribes (Request.read_characteristic_value k) = Unit
Subscribes (Request.characteristic_value_updates k) = Unit
Subscribes _ = ⊥

updates_panics :
    (k : ℕ) (s : State) → (Requests.characteristic_value_updates k s ≡ panic) ↔ (IsFree s → ⊥)
unfolding Requests.characteristic_value_updates
updates_panics k s = elim (Option-cases (get k cell.value)) [
  | inl e ↦ elim (Bool-cases (cell.readers == 0)) [
    | inl f ↦
        rw (e, f, Requests.characteristic_value_updates)
          (λ p. absurd (cc), λ h. absurd (h (ground arith)))
    | inr f ↦ rw (e, f, Requests.characteristic_value_updates) (λ p h. ground arith, λ h. refl)
  ]
  | inr (sender, e) ↦ elim (Bool-cases (cell.readers == 0)) [
    | inl f ↦
        rw (e, f, Requests.characteristic_value_updates)
          (λ p. absurd (cc), λ h. absurd (h (ground arith)))
    | inr f ↦ rw (e, f, Requests.characteristic_value_updates) (λ p h. ground arith, λ h. refl)
  ]
]
  where
    open s use {characteristic_value_updates as cell}

-- A step that does not panic comes after.
then_done :
    {A B : Type 0} (m : Outcome A) (f : A → B)
    → (◌>>=◌ {B = B} m (λ a. done (f a)) ≡ panic) ↔ (m ≡ panic)
then_done (done a) f = (λ p. absurd (cc), λ p. absurd (cc))
then_done panic f = (λ p. refl, λ p. refl)

request_panics :
    (peripheral : ℕ) (r : Request) (s : State)
    → (request peripheral r s ≡ panic) ↔ (Subscribes r × (IsFree s → ⊥))
unfolding request Requests.read_characteristic_value
request_panics peripheral (Request.read_characteristic_value k) s =
    let told = Requests.tell (Peripheral.read_characteristic_value peripheral k) s in
    let (there, back) = then_done (Requests.characteristic_value_updates k told) (λ r. r.0) in
    let (busy, panics) = updates_panics k told in
    (λ p. (tt, busy (there p)), λ h. back (panics h.1))
request_panics peripheral (Request.characteristic_value_updates k) s =
    let (there, back) = then_done (Requests.characteristic_value_updates k s) (λ r. r.0) in
    let (busy, panics) = updates_panics k s in (λ p. (tt, busy (there p)), λ h. back (panics h.1))
request_panics peripheral _ s = (λ p. absurd (cc), λ h. absurd (h.0))

pub ask-eq-panic_iff :
    (is_async : ℕ → Bool) (self : PeripheralAsync) (r : Request) (s : State)
    → (ask is_async self r s ≡ panic) ↔ (
        ((needs_delegate r ≡ true) × (is_async self.inner.delegate ≡ false))
        ⊎ (Subscribes r × (IsFree s → ⊥)))
unfolding ask delegate
ask-eq-panic_iff is_async self r s =
    either (needs_delegate r) (is_async self.inner.delegate)
      (request_panics self.inner.peripheral r s)
  where
    either :
        (needed found : Bool) {P : Type 0}
        → ((request self.inner.peripheral r s ≡ panic) ↔ P)
        → (◌>>=◌ {B = State}
              (if needed
                then (if found then done self.inner.delegate else panic)
                else done self.inner.delegate)
              (λ _. request self.inner.peripheral r s)
            ≡ panic)
          ↔ (((needed ≡ true) × (found ≡ false)) ⊎ P)
    either true true h =
        (λ p. inr (h.0 p), λ q. elim q [ inl e ↦ absurd (ground (arith, e.1)) | inr x ↦ h.1 x ])
    either true false h = (λ p. inl (refl, refl), λ q. refl)
    either false found h =
        (λ p. inr (h.0 p), λ q. elim q [ inl e ↦ absurd (ground (arith, e.0)) | inr x ↦ h.1 x ])

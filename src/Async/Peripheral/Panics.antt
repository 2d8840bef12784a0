-- ===== src/Async/Peripheral/Panics.antt =====
-- When a callback of corebluetooth-async/src/peripheral.rs panics.
use corebluetooth_rs.Prelude.{
  ℕ, ◌<◌, ◌≡◌, ◌≢◌, refl, ◌↔◌, ◌⊎◌, inl, inr, false, Option, none, some, ◌∷◌, done, panic, ◌>>=◌,
  Result, ok, err, arith, ◌==◌, Bool-cases, Option-cases, Returns,
}
use corebluetooth_rs.Prelude.Bytes.{Bytes}
use corebluetooth_rs.Prelude.HashMap.{get}
use corebluetooth_rs.Async.Oneshot.{resolve}
use corebluetooth_rs.Async.Peripheral.Callbacks
use corebluetooth_rs.Async.Peripheral.Account.{alive}
use corebluetooth_rs.Async.Peripheral.Run.{Callback, call}
use corebluetooth_rs.Async.Peripheral.State.{State, Update, CbResult}
use corebluetooth_rs.Async.RefCell
use corebluetooth_rs.Async.RefCell.{RefCell}
use corebluetooth_rs.Async.Trace.{Call}

abbrev IsOk {ℓ κ} : {A : Type ℓ} {E : Type κ} → Result A E → Type 0
IsOk (ok a) = Unit
IsOk (err e) = ⊥

-- The value of a characteristic with a channel arrives when the channel has no receiver, or
-- arrives without a value; the value of a descriptor that a request waits for arrives without one.
abbrev pub IsFatal : Callback → State → Type 0
IsFatal (Callback.did_update_value_for_characteristic k r v n) s =
    (get k s.characteristic_value_updates.value ≢ none) × ((n ≡ 0) ⊎ (IsOk r × (v ≡ none)))
IsFatal (Callback.did_update_value_for_descriptor k r v) s =
    (get k s.descriptor_value_updates ≢ none) × IsOk r × (v ≡ none)
IsFatal _ s = ⊥

deliver_panics :
    (k sender : ℕ) (r : CbResult (Unit {0})) (v : Option Bytes) (n : ℕ) (s : State)
    → (Callbacks.deliver_value k sender r v n (record s {
      characteristic_value_updates = RefCell.borrow s.characteristic_value_updates;
    })
        ≡ panic)
      ↔ ((n ≡ 0) ⊎ (IsOk r × (v ≡ none)))
unfolding Callbacks.deliver_value
deliver_panics k sender (ok u) none n s = (λ e. inr (tt, refl), λ h. refl)
deliver_panics k sender (ok u) (some bytes) n s = elim (Bool-cases (n == 0)) [
  | inl e ↦
      rw (e, alive s.characteristic_value_updates.readers) (λ p. inl (ground arith), λ h. refl)
  | inr e ↦ rw e (
    λ p. absurd (cc),
    λ h. elim h [ inl z ↦ absurd (ground arith) | inr f ↦ absurd (ground (arith, f.1)) ],
  )
]
deliver_panics k sender (err x) v n s = elim (Bool-cases (n == 0)) [
  | inl e ↦
      rw (e, alive s.characteristic_value_updates.readers) (λ p. inl (ground arith), λ h. refl)
  | inr e ↦
      rw e (λ p. absurd (cc), λ h. elim h [ inl z ↦ absurd (ground arith) | inr f ↦ absurd (f.0) ])
]

value_panics :
    (k : ℕ) (r : CbResult (Unit {0})) (v : Option Bytes) (n : ℕ) (s : State)
    → (Callbacks.did_update_value_for_characteristic k r v n s ≡ panic)
      ↔ IsFatal (Callback.did_update_value_for_characteristic k r v n) s
unfolding Callbacks.did_update_value_for_characteristic
value_panics k r v n s = elim (Option-cases (get k s.characteristic_value_updates.value)) [
  | inl e ↦
      rw (e, Callbacks.did_update_value_for_characteristic)
        (λ p. absurd (cc), λ h. absurd (h.0 refl))
  | inr (sender, e) ↦
      rw (e, Callbacks.did_update_value_for_characteristic)
        (
          λ p. (λ q. absurd (ground arith), (deliver_panics k sender r v n s).0 p),
          λ h. (deliver_panics k sender r v n s).1 h.1,
        )
]

unwrap_panics :
    (k sender : ℕ) (r : CbResult (Unit {0})) (v : Option Bytes) (s : State)
    → ((do
      update ← Callbacks.read_value r v
      let (map, trace) =
          resolve k (Update.bytes (Callbacks.convert update)) s.descriptor_value_updates s.trace
      done (record s { descriptor_value_updates = map; trace = trace }))
        ≡ panic)
      ↔ ((some sender ≢ none) × IsOk r × (v ≡ none))
unwrap_panics k sender (ok u) none s = (λ p. (λ q. absurd (cc), tt, refl), λ h. refl)
unwrap_panics k sender (ok u) (some bytes) s = (λ p. absurd (cc), λ h. absurd (ground (arith, h.2)))
unwrap_panics k sender (err x) v s = (λ p. absurd (cc), λ h. absurd (h.1))

descriptor_panics :
    (k : ℕ) (r : CbResult (Unit {0})) (v : Option Bytes) (s : State)
    → (Callbacks.did_update_value_for_descriptor k r v s ≡ panic)
      ↔ IsFatal (Callback.did_update_value_for_descriptor k r v) s
unfolding Callbacks.did_update_value_for_descriptor
descriptor_panics k r v s = elim (Option-cases (get k s.descriptor_value_updates)) [
  | inl e ↦
      rw (e, Callbacks.did_update_value_for_descriptor) (λ p. absurd (cc), λ h. absurd (h.0 refl))
  | inr (sender, e) ↦
      rw (e, Callbacks.did_update_value_for_descriptor) (unwrap_panics k sender r v s)
]

-- A callback panics exactly if it is fatal: if it brings the value of a characteristic whose
-- channel has no receiver left, or a success without a value for a characteristic that has a
-- channel or a descriptor that a request waits for.
pub call-eq-panic_iff : (c : Callback) (s : State) → (call c s ≡ panic) ↔ IsFatal c s
unfolding call
call-eq-panic_iff (Callback.did_update_value_for_characteristic k r v n) s = value_panics k r v n s
call-eq-panic_iff (Callback.did_update_value_for_descriptor k r v) s = descriptor_panics k r v s
call-eq-panic_iff _ s = (λ p. absurd (cc), λ h. absurd h)

-- A value that arrives for a characteristic with a channel, while a receiver is left.
pub delivered :
    (k sender : ℕ) (r : CbResult (Unit {0})) (v : Option Bytes) (update : CbResult Bytes) (n : ℕ)
    (s : State)
    → get k s.characteristic_value_updates.value ≡ some sender
    → Callbacks.read_value r v ≡ done update
    → 0 < n
    → Returns
        (λ u.
          (u.trace.calls
            ≡ Call.try_broadcast sender (Update.bytes (Callbacks.convert update)) ∷ s.trace.calls)
          × (u.characteristic_value_updates.readers ≡ s.characteristic_value_updates.readers)
          × (u.characteristic_value_updates.value ≡ s.characteristic_value_updates.value))
        (Callbacks.did_update_value_for_characteristic k r v n s)
unfolding Callbacks.did_update_value_for_characteristic Callbacks.deliver_value
delivered k sender r v update n s w e h =
    let some_left : (n == 0) ≡ false = ground arith in
    rw (w, Callbacks.did_update_value_for_characteristic)
      (rw (e) (rw some_left (refl, omega arith, refl)))

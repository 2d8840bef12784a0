-- ===== src/Async/System/Adopted.antt =====
-- `Peripheral::init` (corebluetooth/src/peripheral.rs) leaves the state of every delegate as it is,
-- and gives a peripheral without one its own, new `PeripheralAsyncDelegate`.
use mathlib.Core.Path.{subst, fun_ext}
use corebluetooth_rs.Prelude.{
  ℕ, ◌≡◌, refl, sym, ap, ◌∙◌, Option, none, some, Option-cases, Bool-cases, inl, inr, ◌==◌,
  if◌then◌else◌, arith,
}
use corebluetooth_rs.Prelude.HashMap.{HashMap}
use corebluetooth_rs.Async.Peripheral.State.{State}
use corebluetooth_rs.Async.System.Owned.{IsOwned, at_bridge, IsOwned-extended, extended_state}
use corebluetooth_rs.Async.System.Step.{System, adopt, with_delegate}
use corebluetooth_rs.Bluetooth.Bridge
use corebluetooth_rs.Bluetooth.Bridge.{Delegates, bridge_of, found_or, Told, converted}
use corebluetooth_rs.Bluetooth.Bridged.{init-bridge_of}

abbrev pub Owns : System → Type 0
Owns sys = IsOwned (λ q. bridge_of q sys.bridges) sys.delegates sys.next_bridge

-- The state of a peripheral's delegate, or that of a new one if it has none.
unfoldable pub state_of : ℕ → System → State
state_of q sys = at_bridge (bridge_of q sys.bridges) sys.delegates

-- A peripheral that is adopted gets a delegate in its first state, if it had none.
adopted_bridge :
    (p q : ℕ) (sys : System)
    → bridge_of q (adopt p sys).bridges ≡ (
        if p == q
        then some (found_or sys.next_bridge (bridge_of p sys.bridges))
        else bridge_of q sys.bridges)
unfolding adopt Bridge.init
adopted_bridge p q sys = init-bridge_of p q sys.next_bridge sys.bridges

adopted_old :
    (p q b : ℕ) (sys : System)
    → bridge_of p sys.bridges ≡ some b
    → bridge_of q (adopt p sys).bridges ≡ bridge_of q sys.bridges
adopted_old p q b sys e = elim (Bool-cases (p == q)) [
  | inl f ↦
      adopted_bridge p q sys ∙ rw (f, e) (sym e ∙ ap (λ k. bridge_of k sys.bridges) (ground arith))
  | inr f ↦ adopted_bridge p q sys ∙ rw f refl
]

adopted_new :
    (p q : ℕ) (sys : System)
    → bridge_of p sys.bridges ≡ none
    → bridge_of q (adopt p sys).bridges
      ≡ (if p == q then some sys.next_bridge else bridge_of q sys.bridges)
adopted_new p q sys e =
    adopted_bridge p q sys
    ∙ ap (λ o. if p == q then some (found_or sys.next_bridge o) else bridge_of q sys.bridges) e

adopted_delegates :
    (p : ℕ) (sys : System)
    → (adopt p sys).delegates ≡ (with_delegate (bridge_of p sys.bridges) sys).delegates
unfolding adopt
adopted_delegates p sys = refl

adopted_next :
    (p : ℕ) (sys : System)
    → (adopt p sys).next_bridge ≡ (with_delegate (bridge_of p sys.bridges) sys).next_bridge
unfolding adopt
adopted_next p sys = refl

seen_as :
    {bridge : ℕ → Option ℕ} {delegates : HashMap State} {next : ℕ} (t : System)
    → ((q : ℕ) → bridge_of q t.bridges ≡ bridge q)
    → t.delegates ≡ delegates
    → t.next_bridge ≡ next
    → IsOwned bridge delegates next
    → Owns t
seen_as t view d n h =
    subst (λ bridge. IsOwned bridge t.delegates t.next_bridge) (sym (fun_ext view)) (rw (d, n) h)

pub adopt-Owns : (p : ℕ) (sys : System) → Owns sys → Owns (adopt p sys)
adopt-Owns p sys h = elim (Option-cases (bridge_of p sys.bridges)) [
  | inl e ↦
      seen_as (adopt p sys) (λ q. adopted_new p q sys e)
        (adopted_delegates p sys ∙ ap (λ o. (with_delegate o sys).delegates) e)
        (adopted_next p sys ∙ ap (λ o. (with_delegate o sys).next_bridge) e)
        (IsOwned-extended h p e)
  | inr (b, e) ↦
      seen_as (adopt p sys) (λ q. adopted_old p q b sys e)
        (adopted_delegates p sys ∙ ap (λ o. (with_delegate o sys).delegates) e)
        (adopted_next p sys ∙ ap (λ o. (with_delegate o sys).next_bridge) e) h
]

pub adopt-state_of : (p q : ℕ) (sys : System) → Owns sys → state_of q (adopt p sys) ≡ state_of q sys
unfolding state_of
adopt-state_of p q sys h = elim (Option-cases (bridge_of p sys.bridges)) [
  | inl e ↦ rw (adopted_new p q sys e, adopted_delegates p sys, e) (extended_state h p e q)
  | inr (b, e) ↦ rw (adopted_old p q b sys e, adopted_delegates p sys, e) refl
]

-- ===== src/Bluetooth/Bridged.antt =====
-- When the delegate bridges of corebluetooth/src/peripheral.rs and central_manager.rs panic, and
-- how a discovered peripheral keeps its delegate; and what corebluetooth/src/descriptor.rs reads.
-- CoreBluetooth keeps the delegate of a peripheral weakly: the histories are those in which some
-- `Peripheral` holds it, so that it does not go by itself.
use corebluetooth_rs.Prelude.{
  ℕ, ◌≡◌, ◌↔◌, ◌∙◌, ◌⊎◌, inl, inr, refl, ap, Bool, true, false, Option, none, some, List, [], ◌∷◌,
  Outcome, done, panic, ◌>>=◌, Ensures, Ensures->>=, Ensures-done, arith, Option-cases, Bool-cases,
  ◌==◌, if◌then◌else◌,
}
use corebluetooth_rs.Prelude.HashMap.{get, get-insert}
use corebluetooth_rs.Bluetooth.Advertisement.{from_nsdictionary}
use corebluetooth_rs.Bluetooth.Bridge
use corebluetooth_rs.Bluetooth.Bridge.{
  Attached, Delegates, bridge_of, downcast, found_or, Peripheral, init, new, or_err, opened,
  converted, bridged,
}
use corebluetooth_rs.Bluetooth.Btuuid.{BtuuidCrate}
use corebluetooth_rs.Bluetooth.CentralBridge
use corebluetooth_rs.Bluetooth.CentralBridge.{bridge_all}
use corebluetooth_rs.Bluetooth.L2cap
use corebluetooth_rs.Bluetooth.L2cap.{CbChannel}

-- CoreBluetooth opens a channel with both a channel and an error, or with neither, or with a
-- channel whose streams are not as expected.
abbrev pub IsBroken : Bridge.Raw → Type 0
IsBroken (Bridge.Raw.did_open_l2cap_channel (some channel) none) = L2cap.new channel ≡ panic
IsBroken (Bridge.Raw.did_open_l2cap_channel none (some error)) = ⊥
IsBroken (Bridge.Raw.did_open_l2cap_channel _ _) = Unit
IsBroken _ = ⊥

new_panics : (p : ℕ) (s : Delegates) → (new p s ≡ panic) ↔ (bridge_of p s ≡ none)
unfolding new
new_panics p s = elim (Option-cases (bridge_of p s)) [
  | inl e ↦ rw (new, e) (λ h. refl, λ h. refl)
  | inr (b, e) ↦ rw (new, e) (λ h. absurd (cc), λ h. absurd (cc))
]

pub Outcome-cases {ℓ} : {A : Type ℓ} → (m : Outcome A) → (m ≡ panic) ⊎ ((a : A) × (m ≡ done a))
Outcome-cases (done a) = inr (a, refl)
Outcome-cases panic = inl refl

never : {A : Type 0} (a : A) → (done a ≡ panic) ↔ ⊥
never a = (λ h. absurd (cc), λ h. absurd h)

pub converted_panics : (raw : Bridge.Raw) → (converted raw ≡ panic) ↔ IsBroken raw
unfolding converted opened
converted_panics (Bridge.Raw.did_open_l2cap_channel (some channel) none) =
    elim (Outcome-cases (L2cap.new channel)) [
      | inl e ↦ rw (e, opened) (λ h. refl, λ h. refl)
      | inr (found, e) ↦ rw (e, opened) (λ h. absurd (cc), λ h. absurd (cc))
    ]
converted_panics (Bridge.Raw.did_open_l2cap_channel none (some error)) = never _
converted_panics (Bridge.Raw.did_open_l2cap_channel (some channel) (some error)) =
    (λ h. tt, λ h. refl)
converted_panics (Bridge.Raw.did_open_l2cap_channel none none) = (λ h. tt, λ h. refl)
converted_panics _ = never _

-- A method of the peripheral's bridge panics, before it calls its delegate, exactly if the
-- peripheral has no bridge as its
-- delegate, or CoreBluetooth opens an L2CAP channel with a channel and an error, with neither, or
-- with a channel of which `L2capChannel::new` panics.
pub bridged-eq-panic_iff :
    (p : ℕ) (raw : Bridge.Raw) (s : Delegates)
    → (bridged p raw s ≡ panic) ↔ ((bridge_of p s ≡ none) ⊎ IsBroken raw)
unfolding bridged
bridged-eq-panic_iff p raw s =
    both (converted raw) (new p s) (converted_panics raw) (new_panics p s)
  where
    both :
        {A B : Type 0} {P Q : Type 0} (m : Outcome A) (n : Outcome B)
        → ((m ≡ panic) ↔ P)
        → ((n ≡ panic) ↔ Q)
        → (◌>>=◌ {B = B × A} m (λ a. ◌>>=◌ {B = B × A} n (λ b. done (b, a))) ≡ panic) ↔ (Q ⊎ P)
    both (done a) (done b) h k = (
      λ e. absurd (cc),
      λ q. elim q [ inl x ↦ absurd (cc (k.1 x)) | inr x ↦ absurd (cc (h.1 x)) ],
    )
    both (done a) panic h k = (λ e. inl (k.0 refl), λ q. refl)
    both panic n h k = (λ e. inr (h.0 refl), λ q. refl)

-- `Peripheral::init` keeps a bridge that is there, and no bridge is ever taken away.
pub init-bridge_of :
    (p q fresh : ℕ) (s : Delegates)
    → bridge_of q (init p fresh s).0
      ≡ (if p == q then some (init p fresh s).1.delegate else bridge_of q s)
unfolding init
init-bridge_of p q fresh s =
    let delegate = (init p fresh s).1.delegate in
    ap downcast (get-insert p q (Attached.bridge delegate) s)
    ∙ either (p == q) (some (Attached.bridge delegate)) (get q s)
  where
    either :
        (c : Bool) (x y : Option Attached)
        → downcast (if c then x else y) ≡ (if c then downcast x else downcast y)
    either true x y = refl
    either false x y = refl

pub init_keeps :
    (p q fresh b : ℕ) (s : Delegates)
    → bridge_of q s ≡ some b
    → bridge_of q (init p fresh s).0 ≡ some b
unfolding init
init_keeps p q fresh b s h = elim (Bool-cases (p == q)) [
  | inl e ↦ init-bridge_of p q fresh s ∙ rw e (ap some (delegate_kept (ground arith)))
  | inr e ↦ init-bridge_of p q fresh s ∙ rw e h
]
  where
    delegate_kept : p ≡ q → (init p fresh s).1.delegate ≡ b
    delegate_kept same = ap (λ k. found_or fresh (bridge_of k s)) same ∙ ap (found_or fresh) h

keep :
    {A : Type 0} (q b : ℕ) (s : Delegates) (m : Outcome A) (f : A → CentralBridge.Told)
    → bridge_of q s ≡ some b
    → Ensures
        (λ r. bridge_of q r.0 ≡ some b)
        (◌>>=◌ {B = Delegates × CentralBridge.Told} m (λ a. done (s, f a)))
keep q b s (done a) f h = h
keep q b s panic f h = tt

central_keeps :
    (btuuid : BtuuidCrate) (q b : ℕ) (raw : CentralBridge.Raw) (s : Delegates)
    → bridge_of q s ≡ some b
    → Ensures (λ r. bridge_of q r.0 ≡ some b) (CentralBridge.bridged btuuid raw s)
unfolding CentralBridge.bridged
central_keeps btuuid q b CentralBridge.Raw.did_update_state s h = h
central_keeps btuuid q b CentralBridge.Raw.will_restore_state s h = h
central_keeps btuuid q b (CentralBridge.Raw.did_discover p fresh dictionary rssi) s h =
    keep q b (init p fresh s).0 (from_nsdictionary btuuid dictionary) (λ a. _)
      (init_keeps p q fresh b s h)
central_keeps btuuid q b (CentralBridge.Raw.did_connect p) s h = keep q b s (new p s) (λ w. _) h
central_keeps btuuid q b (CentralBridge.Raw.did_fail_to_connect p error) s h =
    keep q b s (new p s) (λ w. _) h
central_keeps btuuid q b (CentralBridge.Raw.did_disconnect p error) s h =
    keep q b s (new p s) (λ w. _) h
central_keeps btuuid q b (CentralBridge.Raw.did_disconnect_at p time again error) s h =
    keep q b s (new p s) (λ w. _) h
central_keeps btuuid q b (CentralBridge.Raw.connection_event p event) s h =
    keep q b s (new p s) (λ w. _) h
central_keeps btuuid q b (CentralBridge.Raw.did_update_ancs_authorization p) s h =
    keep q b s (new p s) (λ w. _) h

all_keep :
    (btuuid : BtuuidCrate) (q b : ℕ) (l : List CentralBridge.Raw) (s : Delegates)
    → bridge_of q s ≡ some b
    → Ensures (λ r. bridge_of q r.0 ≡ some b) (bridge_all btuuid l s)
unfolding bridge_all
all_keep btuuid q b [] s h = h
all_keep btuuid q b (raw ∷ l) s h =
    Ensures->>= (λ r. bridge_of q r.0 ≡ some b) (λ r. bridge_of q r.0 ≡ some b)
      (CentralBridge.bridged btuuid raw s) _ (central_keeps btuuid q b raw s h)
      (λ r kept. keep_rest r.1 (bridge_all btuuid l r.0) (all_keep btuuid q b l r.0 kept))
  where
    keep_rest :
        (told : CentralBridge.Told) (m : Outcome (Delegates × List CentralBridge.Told))
        → Ensures (λ r. bridge_of q r.0 ≡ some b) m
        → Ensures
            (λ r. bridge_of q r.0 ≡ some b)
            (◌>>=◌ {B = Delegates × List CentralBridge.Told} m (λ r. done (r.0, told ∷ r.1)))
    keep_rest told (done r) k = k
    keep_rest told panic k = tt

-- While some `Peripheral` holds the bridge: after a peripheral was discovered, and after whatever else CoreBluetooth then tells the central
-- manager's bridge without a panic, `Peripheral::new` does not panic on the peripheral, and gives
-- it the delegate that the discovery gave it.
pub discovered_lem :
    (btuuid : BtuuidCrate) (p fresh : ℕ) (before : Delegates) (l : List CentralBridge.Raw)
    {s : Delegates} {told : List CentralBridge.Told}
    → bridge_all btuuid l (init p fresh before).0 ≡ done (s, told)
    → new p s ≡ done (init p fresh before).1
unfolding new init
discovered_lem btuuid p fresh before l {s} {told} e =
    let kept : bridge_of p s ≡ some (init p fresh before).1.delegate =
      Ensures-done (λ r. bridge_of p r.0 ≡ some (init p fresh before).1.delegate) _
        (all_keep btuuid p _ l (init p fresh before).0
          (init-bridge_of p p fresh before ∙ ground arith))
        e in
    rw kept refl

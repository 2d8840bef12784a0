-- ===== src/Async/Peripheral/Linear.antt =====
-- Every request of corebluetooth-async/src/peripheral.rs is answered once: the oneshot senders
-- that the delegate holds, and those that it has used or dropped, are together the senders that
-- were opened, each once.
use corebluetooth_rs.Prelude.{
  ℕ, ◌+◌, ◌≡◌, refl, ◌⊎◌, true, false, List, [], ◌∷◌, Outcome, done, panic, Ensures, Ensures->>=,
  Ensures-done, Ensures-mono, arith, ltb, ◌==◌, if◌then◌else◌, Bool-cases, Option-cases, inl, inr,
}
use corebluetooth_rs.Prelude.HashMap.{get, held, is_id}
use corebluetooth_rs.Bluetooth.Peripheral
use corebluetooth_rs.Async.Oneshot.{
  register_account, register_cell_account, register_next, register_cell_next,
}
use corebluetooth_rs.Async.Peripheral.Requests
use corebluetooth_rs.Async.Peripheral.Run.{Request, Input, callback, ask, call, request, step, run}
use corebluetooth_rs.Async.Peripheral.State.{State, default}
use corebluetooth_rs.Async.Trace.{settled}
use corebluetooth_rs.Async.Peripheral.Account.{account, IsFree, Kept, callback-Kept}

-- One more oneshot channel was opened.
record Issued (id : ℕ) (s t : State) : Type 0 where
  same : account id t ≡ account id s + is_id s.trace.next id
  next : t.trace.next ≡ s.trace.next + 1
  free : IsFree s → IsFree t

abbrev After : ℕ → State → State → Type 0
After id s t = Kept id s t ⊎ Issued id s t

ruleset registering = (arith, register_account, register_next)

subscribed-Kept :
    (id k : ℕ) (s : State)
    → Ensures (λ r. Kept id s r.0) (Requests.characteristic_value_updates k s)
unfolding Requests.characteristic_value_updates settled
subscribed-Kept id k s = elim (Option-cases (get k cell.value)) [
  | inl e ↦ elim (Bool-cases (cell.readers == 0)) [
    | inl f ↦ rw (e, f, Requests.characteristic_value_updates) (omega arith)
    | inr f ↦ rw (e, f, Requests.characteristic_value_updates) tt
  ]
  | inr (sender, e) ↦ elim (Bool-cases (cell.readers == 0)) [
    | inl f ↦ rw (e, f, Requests.characteristic_value_updates) (omega arith)
    | inr f ↦ rw (e, f, Requests.characteristic_value_updates) tt
  ]
]
  where
    open s use {characteristic_value_updates as cell}

read-Kept :
    (peripheral id k : ℕ) (s : State)
    → Ensures (λ r. Kept id s r.0) (Requests.read_characteristic_value peripheral k s)
unfolding Requests.read_characteristic_value settled
read-Kept peripheral id k s =
    let told = Requests.tell (Peripheral.read_characteristic_value peripheral k) s in
    Ensures-mono (λ r. Kept id told r.0) (λ r. Kept id s r.0)
      (Requests.characteristic_value_updates k told) (subscribed-Kept id k told)
      (λ r kept. record { same = omega (arith, kept.same); next = kept.next; free = kept.free })

request-After :
    (peripheral id : ℕ) (r : Request) (s : State) → Ensures (After id s) (request peripheral r s)
unfolding request settled Requests.name_updates Requests.services_changed Requests.discover_services
    Requests.discover_included_services Requests.discover_characteristics
    Requests.discover_descriptors Requests.read_descriptor_value Requests.write_characteristic_value
    Requests.write_descriptor_value Requests.set_notify
    Requests.ready_to_send_write_without_response Requests.read_rssi Requests.open_l2cap_channel
request-After peripheral id Request.name_changed s = inl (omega arith)
request-After peripheral id Request.services_changed s = inl (omega arith)
request-After peripheral id (Request.discover_services o) s = inl (omega arith)
request-After peripheral id (Request.discover_included_services k o) s = inr (omega registering)
request-After peripheral id (Request.discover_characteristics k o) s = inr (omega registering)
request-After peripheral id (Request.discover_descriptors k) s = inr (omega registering)
request-After peripheral id (Request.read_characteristic_value k) s =
    Ensures->>= (λ r. Kept id s r.0) (After id s)
      (Requests.read_characteristic_value peripheral k s) (λ r. done r.0)
      (read-Kept peripheral id k s) (λ r kept. inl kept)
request-After peripheral id (Request.characteristic_value_updates k) s =
    Ensures->>= (λ r. Kept id s r.0) (After id s) (Requests.characteristic_value_updates k s)
      (λ r. done r.0) (subscribed-Kept id k s) (λ r kept. inl kept)
request-After peripheral id (Request.read_descriptor_value k) s = inr (omega registering)
request-After peripheral id (Request.write_characteristic_value k b t) s = inr (omega registering)
request-After peripheral id (Request.write_descriptor_value k b) s = inr (omega registering)
request-After peripheral id (Request.set_notify k b) s = inr (omega registering)
request-After peripheral id (Request.ready_to_send_write_without_response true) s =
    inl (omega arith)
request-After peripheral id (Request.ready_to_send_write_without_response false) s =
    inl (omega arith)
request-After peripheral id Request.read_rssi s = inl (omega arith)
request-After peripheral id (Request.open_l2cap_channel psm) s =
    inr (omega (arith, register_cell_account, register_cell_next))

-- Each sender opened so far is held once or was consumed once, and no other is either; and no
-- borrow is alive.
pub record IsLinear (s : State) : Type 0 where
  pub accounted : (id : ℕ) → account id s ≡ (if ltb id s.trace.next then 1 else 0)
  pub free : IsFree s

-- The delegate starts with no request.
default-IsLinear : IsLinear default
unfolding default settled held
default-IsLinear = record { accounted = λ id. ground arith; free = refl }

Kept-Accounted :
    (id : ℕ) (s t : State)
    → account id s ≡ (if ltb id s.trace.next then 1 else 0)
    → Kept id s t
    → account id t ≡ (if ltb id t.trace.next then 1 else 0)
Kept-Accounted id s t h k = rw (k.same, k.next) h

Issued-Accounted :
    (id : ℕ) (s t : State)
    → account id s ≡ (if ltb id s.trace.next then 1 else 0)
    → Issued id s t
    → account id t ≡ (if ltb id t.trace.next then 1 else 0)
Issued-Accounted id s t h k = rw (k.same, k.next) (issue id s.trace.next (account id s) h)
  where
    issue :
        (id n a : ℕ)
        → a ≡ (if ltb id n then 1 else 0)
        → a + is_id n id ≡ (if ltb id (n + 1) then 1 else 0)
    issue id n a e = ground arith

step-After :
    (peripheral id : ℕ) (input : Input) (s : State) → Ensures (After id s) (step peripheral input s)
unfolding step
step-After peripheral id (callback c) s =
    Ensures-mono (Kept id s) (After id s) (call c s) (callback-Kept id c s) (λ t k. inl k)
step-After peripheral id (ask r) s = request-After peripheral id r s

-- Every callback and every request keeps the senders linear.
pub step-IsLinear :
    (peripheral : ℕ) (input : Input) {s t : State}
    → IsLinear s
    → step peripheral input s ≡ done t
    → IsLinear t
step-IsLinear peripheral input {s} {t} h e = record {
  accounted = λ id. elim (after id) [
    | inl k ↦ Kept-Accounted id s t (h.accounted id) k
    | inr k ↦ Issued-Accounted id s t (h.accounted id) k
  ];
  free = elim (after 0) [ inl k ↦ k.free h.free | inr k ↦ k.free h.free ];
}
  where
    after : (id : ℕ) → After id s t
    after id =
        Ensures-done (After id s) (step peripheral input s) (step-After peripheral id input s) e

pub run_from-IsLinear :
    (peripheral : ℕ) (inputs : List Input) (s : State)
    → IsLinear s
    → Ensures IsLinear (run peripheral inputs s)
unfolding run
run_from-IsLinear peripheral [] s h = h
run_from-IsLinear peripheral (input ∷ inputs) s h =
    Ensures->>= (λ t. step peripheral input s ≡ done t) IsLinear (step peripheral input s)
      (run peripheral inputs) (itself (step peripheral input s))
      (λ t e. run_from-IsLinear peripheral inputs t (step-IsLinear peripheral input h e))
  where
    itself : (m : Outcome State) → Ensures (λ t. m ≡ done t) m
    itself (done t) = refl
    itself panic = tt

-- After any callbacks and requests, in any order and none of them with a panic, each oneshot
-- sender that was opened is held by exactly one entry of the delegate's maps, or was used or
-- dropped exactly once, and never both; no other sender is held or was used, and no borrow is
-- left alive.
pub run-IsLinear :
    (peripheral : ℕ) (inputs : List Input) {s : State}
    → run peripheral inputs default ≡ done s
    → IsLinear s
run-IsLinear peripheral inputs e =
    Ensures-done IsLinear (run peripheral inputs default)
      (run_from-IsLinear peripheral inputs default default-IsLinear) e

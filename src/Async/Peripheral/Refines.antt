-- ===== src/Async/Peripheral/Refines.antt =====
-- The delegate of corebluetooth-async/src/peripheral.rs does what the mailboxes promise.
use corebluetooth_rs.Prelude.{
  ℕ, ◌≡◌, refl, ap, ◌∙◌, none, List, [], ◌∷◌, done, Ensures, Ensures-mono, Ensures->>=,
  Ensures-done, Bool-cases, inl, inr,
}
use corebluetooth_rs.Prelude.HashMap.{
  get, Unique, get-insert, get-remove, Unique-insert, Unique-remove,
}
use corebluetooth_rs.Async.Peripheral.Answered.{callback-Shows}
use corebluetooth_rs.Async.Peripheral.Mailbox.{
  Effect, nothing, asks, answers, meaning, Mailboxes, empty, same, perform, perform_all,
}
use corebluetooth_rs.Async.Peripheral.Observed.{Shows, changed, map_at, observe, ends_of}
use corebluetooth_rs.Async.Peripheral.Requested.{request-Shows}
use corebluetooth_rs.Async.Peripheral.Run.{Input, callback, ask, step, run}
use corebluetooth_rs.Async.Peripheral.Slots.{Slot}
use corebluetooth_rs.Async.Peripheral.State.{State, default}

abbrev IsKeyed : State → Type 0
IsKeyed s = (slot : Slot) → Unique (map_at slot s)

changed-Unique :
    (e : Effect) (next : ℕ) (slot : Slot) (map : List (ℕ × ℕ))
    → Unique map
    → Unique (changed e next slot map)
changed-Unique nothing next slot map h = h
changed-Unique (asks own k) next slot map h = elim (Bool-cases (same own slot)) [
  | inl e ↦ rw e (Unique-insert k next map h)
  | inr e ↦ rw e h
]
changed-Unique (answers own k reply) next slot map h = elim (Bool-cases (same own slot)) [
  | inl e ↦ rw e (Unique-remove k map h)
  | inr e ↦ rw e h
]

Shows-IsKeyed : {e : Effect} {s t : State} → Shows e s t → IsKeyed s → IsKeyed t
Shows-IsKeyed {e} {s} shows h slot =
    rw (shows.maps slot) (changed-Unique e s.trace.next slot (map_at slot s) (h slot))

Shows-waiting :
    (e : Effect) {s t : State}
    → Shows e s t
    → IsKeyed s
    → (slot : Slot) (k : ℕ) → get k (map_at slot t) ≡ (perform e (observe s)).waiting slot k
unfolding perform observe
Shows-waiting nothing shows h slot k = ap (get k) (shows.maps slot)
Shows-waiting (asks own j) {s} shows h slot k = elim (Bool-cases (same own slot)) [
  | inl e ↦ ap (get k) (shows.maps slot) ∙ rw e (get-insert j k s.trace.next (map_at slot s))
  | inr e ↦ ap (get k) (shows.maps slot) ∙ rw e refl
]
Shows-waiting (answers own j reply) {s} shows h slot k = elim (Bool-cases (same own slot)) [
  | inl e ↦ ap (get k) (shows.maps slot) ∙ rw e (get-remove j k (map_at slot s) (h slot))
  | inr e ↦ ap (get k) (shows.maps slot) ∙ rw e refl
]

Mailboxes-ext :
    {v w : Mailboxes}
    → ((slot : Slot) (k : ℕ) → v.waiting slot k ≡ w.waiting slot k)
    → v.ended ≡ w.ended
    → v.next ≡ w.next
    → v ≡ w
Mailboxes-ext p q r = λ i. record { waiting = λ slot k. p slot k i; ended = q i; next = r i }

Shows-perform :
    (e : Effect) {s t : State} → Shows e s t → IsKeyed s → observe t ≡ perform e (observe s)
unfolding perform observe
Shows-perform nothing shows h = Mailboxes-ext (Shows-waiting nothing shows h) shows.ended shows.next
Shows-perform (asks own k) shows h =
    Mailboxes-ext (Shows-waiting (asks own k) shows h) shows.ended shows.next
Shows-perform (answers own k reply) shows h =
    Mailboxes-ext (Shows-waiting (answers own k reply) shows h) shows.ended shows.next

step-Shows :
    (peripheral : ℕ) (input : Input) (s : State)
    → Ensures (Shows (meaning input) s) (step peripheral input s)
unfolding step
step-Shows peripheral (callback c) s = callback-Shows c s
step-Shows peripheral (ask r) s = request-Shows peripheral r s

run_from_refines :
    (peripheral : ℕ) (inputs : List Input) (s : State)
    → IsKeyed s
    → Ensures (λ t. observe t ≡ perform_all inputs (observe s)) (run peripheral inputs s)
unfolding run perform_all
run_from_refines peripheral [] s h = refl
run_from_refines peripheral (input ∷ inputs) s h =
    Ensures->>= (Shows (meaning input) s)
      (λ u. observe u ≡ perform_all (input ∷ inputs) (observe s)) (step peripheral input s)
      (run peripheral inputs) (step-Shows peripheral input s)
      (λ t shows.
        Ensures-mono (λ u. observe u ≡ perform_all inputs (observe t)) _ (run peripheral inputs t)
          (run_from_refines peripheral inputs t (Shows-IsKeyed shows h))
          (λ u later. later ∙ ap (perform_all inputs) (Shows-perform (meaning input) shows h)))

default-IsKeyed : IsKeyed default
unfolding default
default-IsKeyed Slot.included_services = tt
default-IsKeyed _ = tt

default-empty : observe default ≡ empty
unfolding default observe ends_of get
default-empty = Mailboxes-ext (λ slot k. none_at slot k) refl refl
  where
    none_at : (slot : Slot) (k : ℕ) → get k (map_at slot default) ≡ none
    none_at Slot.included_services k = refl
    none_at _ k = refl

-- Refinement: after any callbacks and requests, in any order, that do not panic, the requests
-- that wait in the delegate, how each request that no longer waits ended, in which order, and the
-- number of the next request are what the mailboxes give for the same callbacks and requests.
pub run-perform_all :
    (peripheral : ℕ) (inputs : List Input) {s : State}
    → run peripheral inputs default ≡ done s
    → observe s ≡ perform_all inputs empty
run-perform_all peripheral inputs h =
    Ensures-done (λ t. observe t ≡ perform_all inputs (observe default)) _
      (run_from_refines peripheral inputs default default-IsKeyed) h
    ∙ ap (perform_all inputs) default-empty

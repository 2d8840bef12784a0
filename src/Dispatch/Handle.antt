-- ===== src/Dispatch/Handle.antt =====
-- `Handle` of dispatch-executor/src/lib.rs: a value that is read on its dispatch queue only. A
-- queue is known by its identity, and the blocks that `barrier_sync` ran are the list of the
-- queues that they ran on, the latest first.
use corebluetooth_rs.Prelude.{
  ℕ, ◌≡◌, ◌≢◌, ◌↔◌, refl, ap, Bool, true, false, List, ◌∷◌, Outcome, done, panic, ◌>>=◌, ◌==◌,
  if◌then◌else◌, arith, Bool-cases, inl, inr,
}

-- An interface to `PartialEq`.
pub record PartialEq (T : Type 0) : Type 0 where
  pub eq : T → T → Bool

pub record Handle (T : Type 0) : Type 0 where
  pub queue : ℕ
  pub value : T

-- `func` is given the value and the executor of the handle's queue.
unfoldable pub lock : {T R : Type 0} → Handle T → (T → ℕ → R) → List ℕ → R × List ℕ
lock handle func ran = (func handle.value handle.queue, handle.queue ∷ ran)

-- `&&` does not lock the value when the queues differ.
unfoldable pub eq : {T : Type 0} → PartialEq T → Handle T → Handle T → List ℕ → Bool × List ℕ
unfolding lock
eq partial_eq self other ran =
    if self.queue == other.queue
    then lock self (λ value _. partial_eq.eq value other.value) ran
    else (false, ran)

unfoldable pub zip : {T U : Type 0} → Handle T → Handle U → Outcome (Handle (T × U))
zip self other =
    if self.queue == other.queue
    then done (record { queue = self.queue; value = (self.value, other.value) })
    else panic

-- `zip` panics exactly if the handles are not of the same queue.
pub zip-eq-panic_iff :
    {T U : Type 0} → (a : Handle T) (b : Handle U) → (zip a b ≡ panic) ↔ (a.queue ≢ b.queue)
unfolding zip
zip-eq-panic_iff a b = elim (Bool-cases (a.queue == b.queue)) [
  | inl e ↦ rw e (λ h. absurd (cc), λ h. absurd (ground arith))
  | inr e ↦ rw e (λ h. ground arith, λ h. refl)
]

-- Locking the handle that `zip` makes runs one block on the common queue, with both values and
-- that queue's executor.
pub lock-zip :
    {T U R : Type 0}
    → (a : Handle T) (b : Handle U) (func : T × U → ℕ → R) (ran : List ℕ) → a.queue ≡ b.queue
    → (◌>>=◌ {B = R × List ℕ} (zip a b) (λ both. done (lock both func ran)))
      ≡ done (func (a.value, b.value) b.queue, a.queue ∷ ran)
unfolding zip lock
lock-zip a b func ran same =
    let hit : (a.queue == b.queue) ≡ true = ground arith in
    rw hit (ap (λ q. done (func (a.value, b.value) q, a.queue ∷ ran)) same)

-- Two handles are equal exactly if their queues and their values are; the comparison runs one
-- block, on their queue, if the queues are the same, and none otherwise.
pub eq-eq-true_iff :
    {T : Type 0}
    → (partial_eq : PartialEq T) (a b : Handle T) (ran : List ℕ)
    → (((eq partial_eq a b ran).0 ≡ true)
        ↔ ((a.queue ≡ b.queue) × (partial_eq.eq a.value b.value ≡ true)))
      × ((eq partial_eq a b ran).1 ≡ (if a.queue == b.queue then b.queue ∷ ran else ran))
unfolding eq lock
eq-eq-true_iff partial_eq a b ran = ground arith

-- ===== src/Dispatch/Hash.antt =====
-- `Clone` and `Hash` for `Handle` of dispatch-executor/src/lib.rs. The hashers of the standard
-- library are parameters.
use corebluetooth_rs.Prelude.{ℕ, ◌≡◌, refl, true, List, ◌∷◌}
use corebluetooth_rs.Dispatch.Handle.{Handle, PartialEq, eq, lock, eq-eq-true_iff}

-- `Hash` of the queue, of the value and of a `u64`, and `DefaultHasher`, whose `new` is `fresh`.
pub record Hashing (T State : Type 0) : Type 1 where
  pub DefaultHasher : Type 0
  pub hash_queue : ℕ → State → State
  pub hash_value : T → DefaultHasher → DefaultHasher
  pub hash_u64 : ℕ → State → State
  pub fresh : DefaultHasher
  pub finish : DefaultHasher → ℕ

-- `clone` is the `SyncClone` of the value; the blocks that `lock` ran are the list.
unfoldable pub clone : {T : Type 0} → (T → T) → Handle T → Handle T
clone clone_value self = record { queue = self.queue; value = clone_value self.value }

unfoldable pub hash :
    {T State : Type 0} → Hashing T State → Handle T → State → List ℕ → State × List ℕ
unfolding lock
hash hashing self state ran =
    let (digest, ran') =
      lock self (λ value _. hashing.finish (hashing.hash_value value hashing.fresh)) ran in
    (hashing.hash_u64 digest (hashing.hash_queue self.queue state), ran')

-- Handles that are equal have the same hash, if values that are equal have, so that they can be the
-- keys of a map; and the value is hashed in one block on the handle's queue.
pub hash-eq :
    {T State : Type 0}
    → (partial_eq : PartialEq T) (hashing : Hashing T State)
    → ((x y : T) (h : hashing.DefaultHasher)
        → partial_eq.eq x y ≡ true
        → hashing.hash_value x h ≡ hashing.hash_value y h)
    → (a b : Handle T) (ran : List ℕ) → (eq partial_eq a b ran).0 ≡ true
    → (state : State)
    → (hash hashing a state ran ≡ hash hashing b state ran)
      × ((hash hashing a state ran).1 ≡ a.queue ∷ ran)
unfolding hash lock
hash-eq partial_eq hashing contract a b ran equal state =
    let (same_queue, same_value) = (eq-eq-true_iff partial_eq a b ran).0.0 equal in
    (rw (same_queue, contract a.value b.value hashing.fresh same_value) refl, refl)

-- ===== src/Dispatch/Task.antt =====
-- `Task` of dispatch-executor/src/lib.rs: a future that is ready, or that of a spawned task of the
-- crate async_task, which is a parameter of `poll`.
use corebluetooth_rs.Prelude.{
  ℕ, ◌≡◌, refl, Option, none, some, List, ◌∷◌, Outcome, done, panic, ◌>>=◌, unwrap,
}
use corebluetooth_rs.Async.Crate.{Poll, ready}

-- A spawned task is its number.
pub data Task (T : Type 0) : Type 0 where
  ready_task : Option T → Task T
  spawned : ℕ → Task T

unfoldable ready_with : {T : Type 0} → T → Task T
ready_with val = ready_task (some val)

-- The tasks that go on by themselves: `detach` of a ready task does nothing.
unfoldable detach : {T : Type 0} → Task T → List ℕ → List ℕ
detach (ready_task val) detached = detached
detach (spawned task) detached = task ∷ detached

-- `val.take().unwrap()` leaves `None` behind.
unfoldable pub poll : {T : Type 0} → (ℕ → Poll T) → Task T → Outcome (Task T × Poll T)
poll poll_spawned (ready_task val) = do v ← unwrap val; done (ready_task none, ready v)
poll poll_spawned (spawned task) = done (spawned task, poll_spawned task)

-- A task made by `Task::ready` gives its value at the first poll and panics at the second.
poll-ready_with :
    {T : Type 0}
    → (poll_spawned : ℕ → Poll T) (val : T)
    → (rest : Task T) × (poll poll_spawned (ready_with val) ≡ done (rest, ready val))
      × (poll poll_spawned rest ≡ panic)
unfolding poll ready_with
poll-ready_with poll_spawned val = (ready_task none, refl, refl)

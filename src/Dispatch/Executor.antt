-- ===== src/Dispatch/Executor.antt =====
-- `Executor` of dispatch-executor/src/lib.rs, and the closures that it gives to the crate
-- async_task. Neither that crate nor Grand Central Dispatch is part of the repository: a queue and a
-- task are numbers, and what the code submits to a queue is an entry of a list.
use Prim.Native.String.{String}
use corebluetooth_rs.Prelude.{ℕ, ◌+◌, Option, none, some, List, ◌∷◌}
use corebluetooth_rs.Prelude.HashMap.{HashMap, get, insert}
use corebluetooth_rs.Dispatch.Handle.{Handle}
use corebluetooth_rs.Dispatch.Task.{Task, spawned}

pub record Executor : Type 0 where
  pub queue : ℕ

-- What is submitted to a queue. A block of `barrier_sync` is what stands between its two entries;
-- a block of the others runs a task.
pub data Submission (Attr : Type 0) : Type 0 where
  new_queue : ℕ → String → Option Attr → Submission Attr
  enter_barrier leave_barrier : ℕ → Submission Attr
  exec_async barrier_async : ℕ → ℕ → Submission Attr

-- What the closure of a spawned task captures: the queue, and how it submits the task.
pub data Closure : Type 0 where
  by_exec_async by_barrier_async : ℕ → Closure

-- The submissions so far, the latest first, the closures of the tasks, and the numbers of the next
-- queue and the next task.
pub record Dispatch (Attr : Type 0) : Type 0 where
  pub submitted : List (Submission Attr)
  pub closures : HashMap Closure
  pub next_queue : ℕ
  pub next_task : ℕ

module _ {Attr : Type 0} where
  abbrev submit : Submission Attr → Dispatch Attr → Dispatch Attr
  submit submission d = record d { submitted = submission ∷ d.submitted }

  -- `entry` runs inside the block, and its result is returned.
  unfoldable pub background :
      {R : Type 0}
      → String
      → Option Attr
      → (Executor → Dispatch Attr → R × Dispatch Attr)
      → Dispatch Attr
      → R × Dispatch Attr
  background label queue_attributes entry d =
      let queue = d.next_queue in
      let made : Dispatch Attr =
        record (submit (Submission.new_queue queue label queue_attributes) d) {
          next_queue = queue + 1;
        } in
      let (ret, after) =
        entry (record { queue = queue }) (submit (Submission.enter_barrier queue) made) in
      (ret, submit (Submission.leave_barrier queue) after)

  abbrev pub submission : Closure → ℕ → Submission Attr
  submission (Closure.by_exec_async queue) task = Submission.exec_async queue task
  submission (Closure.by_barrier_async queue) task = Submission.barrier_async queue task

  -- `runnable.schedule()`: the closure of the task is called. async_task calls it by the same means
  -- when a wake is to run the task again.
  unfoldable pub schedule : ℕ → Dispatch Attr → Dispatch Attr
  schedule task d = elim (get task d.closures) [
    | none ↦ d
    | some closure ↦ submit (submission closure task) d
  ]

  abbrev spawn_with : {R : Type 0} → Closure → Dispatch Attr → Task R × Dispatch Attr
  spawn_with closure d =
      let task = d.next_task in
      (
        spawned task,
        schedule task
            (record d { closures = insert task closure d.closures; next_task = task + 1 }),
      )

  unfoldable pub spawn : {R : Type 0} → Executor → Dispatch Attr → Task R × Dispatch Attr
  unfolding schedule
  spawn self d = spawn_with (Closure.by_exec_async self.queue) d

  unfoldable pub spawn_local : {R : Type 0} → Executor → Dispatch Attr → Task R × Dispatch Attr
  unfolding schedule
  spawn_local self d = spawn_with (Closure.by_barrier_async self.queue) d

-- `main` is the queue that `DispatchQueue::main()` gives.
unfoldable pub main_thread : ℕ → Executor
main_thread main = record { queue = main }

unfoldable pub handle : {T : Type 0} → Executor → T → Handle T
handle self value = record { queue = self.queue; value = value }

-- `Handle::executor`
unfoldable pub executor : {T : Type 0} → Handle T → Executor
executor handle = record { queue = handle.queue }

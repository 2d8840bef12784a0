-- ===== src/Dispatch/Tasks.antt =====
-- What happens to the tasks of the executors of dispatch-executor/src/lib.rs, and how often each was
-- submitted.
use corebluetooth_rs.Prelude.{ℕ, zero, suc, ◌+◌, List, [], ◌∷◌, ◌==◌, if◌then◌else◌}
use corebluetooth_rs.Dispatch.Executor.{Submission, Closure, Dispatch, spawn, spawn_local, schedule}

-- A task is spawned with one of the closures, or async_task calls the closure of a task again. When
-- it does so is its own: a wake of a task that is scheduled already, or is over, calls nothing.
pub data Event : Type 0 where
  spawned_with : Closure → Event
  rescheduled : ℕ → Event

-- How a task was submitted, the latest first.
abbrev pub submitted_as : {Attr : Type 0} → ℕ → List (Submission Attr) → List Closure
submitted_as task [] = []
submitted_as task (Submission.exec_async queue t ∷ l) =
    let rest = submitted_as task l in if t == task then Closure.by_exec_async queue ∷ rest else rest
submitted_as task (Submission.barrier_async queue t ∷ l) =
    let rest = submitted_as task l in
    if t == task then Closure.by_barrier_async queue ∷ rest else rest
submitted_as task (_ ∷ l) = submitted_as task l

abbrev pub repeat : ℕ → Closure → List Closure
repeat zero closure = []
repeat (suc n) closure = closure ∷ repeat n closure

abbrev pub reschedules : ℕ → List Event → ℕ
reschedules task [] = 0
reschedules task (rescheduled t ∷ events) = (if t == task then 1 else 0) + reschedules task events
reschedules task (spawned_with closure ∷ events) = reschedules task events

module _ {Attr : Type 0} where
  abbrev pub empty : Dispatch Attr
  empty = record { submitted = []; closures = []; next_queue = 0; next_task = 0 }

  abbrev pub spawn_by : Closure → Dispatch Attr → Dispatch Attr
  spawn_by (Closure.by_exec_async queue) d = (spawn {R = Unit {0}} (record { queue = queue }) d).1
  spawn_by (Closure.by_barrier_async queue) d =
      (spawn_local {R = Unit {0}} (record { queue = queue }) d).1

  unfoldable pub after : List Event → Dispatch Attr → Dispatch Attr
  unfolding spawn spawn_local
  after [] d = d
  after (spawned_with closure ∷ events) d = after events (spawn_by closure d)
  after (rescheduled task ∷ events) d = after events (schedule task d)

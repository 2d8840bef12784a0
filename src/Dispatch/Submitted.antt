-- ===== src/Dispatch/Submitted.antt =====
-- On which queue, how, and how often the tasks of dispatch-executor/src/lib.rs are submitted.
use mathlib.Core.Path.{subst}
use corebluetooth_rs.Prelude.{
  ℕ, suc, ◌+◌, ◌≤◌, ◌<◌, ◌≡◌, inl, inr, refl, sym, ◌∙◌, some, List, [], ◌∷◌, arith, ◌==◌,
  if◌then◌else◌, Option-cases, Bool-cases, true, false,
}
use corebluetooth_rs.Prelude.HashMap.{get, insert, get-insert}
use corebluetooth_rs.Dispatch.Tasks.{
  Event, spawned_with, rescheduled, submitted_as, repeat, reschedules, empty, spawn_by, after,
}
use corebluetooth_rs.Dispatch.Executor.{Closure, Dispatch, spawn, spawn_local, schedule}
use corebluetooth_rs.Dispatch.Scheduled.{
  IsAt, IsFresh, schedule_self, schedule_other, schedule-IsFresh,
}

module _ {Attr : Type 0} where
  abbrev inserted : Closure → Dispatch Attr → Dispatch Attr
  inserted closure d = record d {
    closures = insert d.next_task closure d.closures;
    next_task = d.next_task + 1;
  }

  spawn_by_lem :
      (closure : Closure) (d : Dispatch Attr)
      → spawn_by closure d ≡ schedule d.next_task (inserted closure d)
  unfolding spawn spawn_local
  spawn_by_lem (Closure.by_exec_async queue) d = refl
  spawn_by_lem (Closure.by_barrier_async queue) d = refl

  inserted-IsFresh :
      (closure : Closure) (d : Dispatch Attr)
      → IsFresh d.next_task d
      → IsFresh (d.next_task + 1) (inserted closure d)
  inserted-IsFresh closure d h = record {
    absent = λ t le.
        get-insert d.next_task t closure d.closures ∙ rw (later t le) (h.absent t (omega arith));
    unused = λ t le. h.unused t (omega arith);
  }
    where
      later : (t : ℕ) → d.next_task + 1 ≤ t → (d.next_task == t) ≡ false
      later t le = ground arith

  inserted_self :
      (closure : Closure) (d : Dispatch Attr)
      → IsFresh d.next_task d
      → IsAt d.next_task closure 0 (inserted closure d)
  inserted_self closure d h = record {
    stored = get-insert d.next_task d.next_task closure d.closures ∙ hit d.next_task;
    submitted = h.unused d.next_task (omega arith);
    old = omega arith;
  }
    where
      hit : (n : ℕ) → (if n == n then some closure else get n d.closures) ≡ some closure
      hit n = ground arith

  spawned_other :
      (task times : ℕ) (closure new : Closure) (d : Dispatch Attr)
      → IsAt task closure times d
      → IsAt task closure times (spawn_by new d)
  spawned_other task times closure new d h = rw (spawn_by_lem new d) (
      schedule_other task d.next_task closure times (inserted new d) (differ h.old) (record {
        stored = get-insert d.next_task task new d.closures ∙ rw (differ h.old) h.stored;
        submitted = h.submitted;
        old = below h.old;
      }))
    where
      differ : task < d.next_task → (d.next_task == task) ≡ false
      differ lt = ground arith

      below : task < d.next_task → task < d.next_task + 1
      below lt = omega arith

  recount :
      {task m n : ℕ} {closure : Closure} {d : Dispatch Attr}
      → m ≡ n
      → IsAt task closure m d
      → IsAt task closure n d
  recount {task} {closure = closure} {d = d} e h = subst (λ n. IsAt task closure n d) e h

  after-IsAt :
      (task times : ℕ) (closure : Closure) (events : List Event) (d : Dispatch Attr)
      → IsAt task closure times d
      → IsAt task closure (reschedules task events + times) (after events d)
  unfolding after
  after-IsAt task times closure [] d h = recount (omega arith) h
  after-IsAt task times closure (spawned_with new ∷ events) d h =
      after-IsAt task times closure events (spawn_by new d)
        (spawned_other task times closure new d h)
  after-IsAt task times closure (rescheduled t ∷ events) d h = elim (Bool-cases (t == task)) [
    | inl e ↦
        rw (e, same t e)
          (recount (omega arith) (
            after-IsAt task (suc times) closure events (schedule task d)
              (schedule_self task closure times d h)))
    | inr e ↦ rw e (
        recount (omega arith) (
          after-IsAt task times closure events (schedule t d)
            (schedule_other task t closure times d e h)))
  ]
    where
      same : (t : ℕ) → (t == task) ≡ true → t ≡ task
      same t e = ground arith

  schedule_next : (t : ℕ) (d : Dispatch Attr) → (schedule t d).next_task ≡ d.next_task
  unfolding schedule
  schedule_next t d = elim (Option-cases (get t d.closures)) [
    | inl f ↦ rw (f, schedule) refl
    | inr (other, f) ↦ rw (f, schedule) refl
  ]

  scheduled-IsFresh :
      (t : ℕ) (d : Dispatch Attr)
      → IsFresh d.next_task d
      → IsFresh (schedule t d).next_task (schedule t d)
  scheduled-IsFresh t d h =
      subst (λ n. IsFresh n (schedule t d)) (sym (schedule_next t d))
        (schedule-IsFresh d.next_task t d h)

  after-IsFresh :
      (events : List Event) (d : Dispatch Attr)
      → IsFresh d.next_task d
      → IsFresh (after events d).next_task (after events d)
  unfolding after
  after-IsFresh [] d h = h
  after-IsFresh (spawned_with new ∷ events) d h = after-IsFresh events (spawn_by new d) (
      subst (λ e. IsFresh e.next_task e) (sym (spawn_by_lem new d))
        (scheduled-IsFresh d.next_task (inserted new d) (inserted-IsFresh new d h)))
  after-IsFresh (rescheduled t ∷ events) d h =
      after-IsFresh events (schedule t d) (scheduled-IsFresh t d h)

  empty-IsFresh : IsFresh {Attr = Attr} 0 empty
  unfolding get
  empty-IsFresh = record { absent = λ t le. refl; unused = λ t le. refl }

-- However tasks are spawned, and however often and in which order async_task calls their closures
-- again, a task is submitted once when it is spawned and once for each later call of its closure,
-- each time to the queue of the executor that it was spawned on and in the way of its `spawn`: by
-- `exec_async` for `spawn`, and by `barrier_async` for `spawn_local`.
pub submitted_as-spawn_by :
    (Attr : Type 0) (closure : Closure) (before later : List Event)
    → let d : Dispatch Attr = after before empty in
      submitted_as d.next_task (after later (spawn_by closure d)).submitted
      ≡ repeat (reschedules d.next_task later + 1) closure
submitted_as-spawn_by Attr closure before later =
    (after-IsAt d.next_task 1 closure later (spawn_by closure d) spawned).submitted
  where
    d : Dispatch Attr
    d = after before empty

    spawned : IsAt d.next_task closure 1 (spawn_by closure d)
    spawned = subst (IsAt d.next_task closure 1) (sym (spawn_by_lem closure d)) (
        schedule_self d.next_task closure 0 (inserted closure d)
          (inserted_self closure d (after-IsFresh before empty empty-IsFresh)))

-- ===== src/Dispatch/Scheduled.antt =====
-- What one call of the closure of a task of dispatch-executor/src/lib.rs does to its own submissions and to those
-- of the others.
use corebluetooth_rs.Prelude.{
  ℕ, suc, ◌≤◌, ◌<◌, ◌≡◌, inl, inr, refl, ap, ◌∙◌, none, some, List, [], ◌∷◌, arith, ◌==◌,
  Option-cases, Bool-cases, false,
}
use corebluetooth_rs.Prelude.HashMap.{get}
use corebluetooth_rs.Dispatch.Tasks.{submitted_as, repeat}
use corebluetooth_rs.Dispatch.Executor.{Submission, Closure, Dispatch, submission, schedule}

module _ {Attr : Type 0} where
  submitted_self :
      (task : ℕ) (closure : Closure) (l : List (Submission Attr))
      → submitted_as task (submission closure task ∷ l) ≡ closure ∷ submitted_as task l
  submitted_self task (Closure.by_exec_async queue) l = ground arith
  submitted_self task (Closure.by_barrier_async queue) l = ground arith

  submitted_other :
      (task t : ℕ) (closure : Closure) (l : List (Submission Attr))
      → (t == task) ≡ false
      → submitted_as task (submission closure t ∷ l) ≡ submitted_as task l
  submitted_other task t (Closure.by_exec_async queue) l e = rw e refl
  submitted_other task t (Closure.by_barrier_async queue) l e = rw e refl

  -- The task has its closure, and was submitted by it so often.
  pub record IsAt (task : ℕ) (closure : Closure) (times : ℕ) (d : Dispatch Attr) : Type 0 where
    pub stored : get task d.closures ≡ some closure
    pub submitted : submitted_as task d.submitted ≡ repeat times closure
    pub old : task < d.next_task

  -- A task that was not spawned yet was not submitted.
  pub record IsFresh (task : ℕ) (d : Dispatch Attr) : Type 0 where
    pub absent : (t : ℕ) → task ≤ t → get t d.closures ≡ none
    pub unused : (t : ℕ) → task ≤ t → submitted_as t d.submitted ≡ []

  pub schedule_self :
      (task : ℕ) (closure : Closure) (times : ℕ) (d : Dispatch Attr)
      → IsAt task closure times d
      → IsAt task closure (suc times) (schedule task d)
  unfolding schedule
  schedule_self task closure times d h =
      rw (h.stored, schedule)
        (record {
          stored = h.stored;
          submitted = submitted_self task closure d.submitted ∙ ap (λ l. closure ∷ l) h.submitted;
          old = h.old;
        })

  pub schedule_other :
      (task t : ℕ) (closure : Closure) (times : ℕ) (d : Dispatch Attr)
      → (t == task) ≡ false
      → IsAt task closure times d
      → IsAt task closure times (schedule t d)
  unfolding schedule
  schedule_other task t closure times d e h = elim (Option-cases (get t d.closures)) [
    | inl f ↦ rw (f, schedule) h
    | inr (other, f) ↦
        rw (f, schedule)
          (record {
            stored = h.stored;
            submitted = submitted_other task t other d.submitted e ∙ h.submitted;
            old = h.old;
          })
  ]

  pub schedule-IsFresh :
      (task t : ℕ) (d : Dispatch Attr) → IsFresh task d → IsFresh task (schedule t d)
  unfolding schedule
  schedule-IsFresh task t d h = elim (Option-cases (get t d.closures)) [
    | inl f ↦ rw (f, schedule) h
    | inr (other, f) ↦
        rw (f, schedule)
          (record {
            absent = h.absent;
            unused =
                λ u le. submitted_other u t other d.submitted (differ u le other f) ∙ h.unused u le;
          })
  ]
    where
      differ :
          (u : ℕ) → task ≤ u → (other : Closure) → get t d.closures ≡ some other → (t == u) ≡ false
      differ u le other f = elim (Bool-cases (t == u)) [
        | inl same ↦ absurd (cc (h.absent t (ground arith), f))
        | inr e ↦ e
      ]

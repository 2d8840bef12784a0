-- ===== src/Tests/Executor.antt =====
-- The theorems on handles, queues and tasks at concrete ones.
use corebluetooth_rs.Prelude.{
  ℕ, ◌+◌, ◌*◌, ◌%◌, Bool, false, Option, none, some, arith, ◌≡◌, ◌↔◌, refl, true, [], ◌∷◌, ◌==◌,
  if◌then◌else◌,
}
use corebluetooth_rs.Prelude.HashMap.{get, insert}
use corebluetooth_rs.Dispatch.Handle.{PartialEq, Handle, lock, eq, eq-eq-true_iff}
use corebluetooth_rs.Dispatch.Attr.{Dispatch2, to_attr}
use corebluetooth_rs.Dispatch.Executor.{Closure, spawn}
use corebluetooth_rs.Dispatch.Hash.{Hashing, hash, hash-eq}
use corebluetooth_rs.Dispatch.Submitted.{submitted_as-spawn_by}
use corebluetooth_rs.Dispatch.Tasks.{
  rescheduled, spawned_with, submitted_as, repeat, empty, spawn_by, after,
}

abbrev numbers : PartialEq ℕ
numbers = record { eq = λ a b. a == b }

abbrev here : Handle ℕ
here = record { queue = 1; value = 5 }

abbrev beside : Handle ℕ
beside = record { queue = 1; value = 6 }

abbrev elsewhere : Handle ℕ
elsewhere = record { queue = 2; value = 5 }

eq_example :
    (((eq numbers here elsewhere []).0 ≡ true)
      ↔ ((here.queue ≡ elsewhere.queue) × (numbers.eq here.value elsewhere.value ≡ true)))
    × ((eq numbers here elsewhere []).1
        ≡ (if here.queue == elsewhere.queue then elsewhere.queue ∷ [] else []))
eq_example = eq-eq-true_iff numbers here elsewhere []

abbrev plain_hashing : Hashing ℕ ℕ
plain_hashing = record {
  DefaultHasher = ℕ;
  hash_queue = λ queue state. 31 * state + queue;
  hash_value = λ value hasher. hasher + value % 10;
  hash_u64 = λ digest state. 31 * state + digest;
  fresh = 17;
  finish = λ hasher. hasher;
}

-- Values that agree in their last digit are equal.
abbrev last_digit : PartialEq ℕ
last_digit = record { eq = λ a b. a % 10 == b % 10 }

abbrev far : Handle ℕ
far = record { queue = 1; value = 15 }

hash_example :
    (hash plain_hashing here 1 [] ≡ hash plain_hashing far 1 [])
    × ((hash plain_hashing here 1 []).1 ≡ 1 ∷ [])
unfolding eq lock
hash_example = hash-eq last_digit plain_hashing (λ x y h e. ground (arith, e)) here far [] refl 1

record Attribute : Type 0 where
  serial : Bool
  frequency : ℕ
  qos : ℕ × ℕ

abbrev of_queue : Option Attribute → Attribute
of_queue none = record { serial = true; frequency = 0; qos = (0, 0) }
of_queue (some a) = a

abbrev attributes : Dispatch2
attributes = record {
  Attr = Attribute;
  concurrent = some (record { serial = false; frequency = 0; qos = (0, 0) });
  with_autorelease_frequency = λ a f. record (of_queue a) { frequency = f };
  with_qos_class = λ a c p. record (of_queue a) { qos = (c, p) };
  is_serial = λ a. (of_queue a).serial;
  frequency = λ a. (of_queue a).frequency;
  qos_class = λ a. (of_queue a).qos;
  serial_none = refl;
  serial_frequency = λ a f. refl;
  serial_qos = λ a c p. refl;
  frequency_set = λ a f. refl;
  frequency_kept = λ a c p. refl;
  qos_set = λ a c p. refl;
  qos_kept = λ a f. refl;
}

to_attr_run :
    of_queue (to_attr attributes 1 (record { class = 21; relative_priority = 3 }))
    ≡ record { serial = true; frequency = 1; qos = (21, 3) }
unfolding to_attr
to_attr_run = refl

-- The closure of the second task, on queue 5, is called twice after its spawn, when the task was
-- woken after its first and its second run.
submitted_example :
    submitted_as 1
      (after (rescheduled 0 ∷ rescheduled 1 ∷ rescheduled 1 ∷ []) (
        spawn_by
          (Closure.by_barrier_async 5)
          (after {Attr = ℕ} (spawned_with (Closure.by_exec_async 4) ∷ []) empty))).submitted
    ≡ repeat 3 (Closure.by_barrier_async 5)
unfolding after spawn get insert
submitted_example =
    submitted_as-spawn_by ℕ (Closure.by_barrier_async 5)
      (spawned_with (Closure.by_exec_async 4) ∷ [])
      (rescheduled 0 ∷ rescheduled 1 ∷ rescheduled 1 ∷ [])

-- ===== src/Async/Peripheral/Values.antt =====
-- What is sent through the channels of the characteristics' values
-- (corebluetooth-async/src/peripheral.rs): no two characteristics share one, and a characteristic
-- keeps its channel.
use corebluetooth_rs.Prelude.{
  ℕ, ◌≤◌, ◌<◌, ◌≡◌, refl, Option, none, some, List, [], ◌∷◌, ◌++◌, ok, err, Option-cases, inl, inr,
  ◌==◌, if◌then◌else◌, arith,
}
use corebluetooth_rs.Prelude.HashMap.{get}
use corebluetooth_rs.Async.Oneshot.{OneshotMap, register, resolve, register_cell, resolve_cell}
use corebluetooth_rs.Async.Peripheral.Callbacks.{convert}
use corebluetooth_rs.Async.Peripheral.Run.{Callback, Input, callback}
use corebluetooth_rs.Async.Peripheral.Spoken.{get-AllLater}
use corebluetooth_rs.Async.Peripheral.State.{State, Update}
use corebluetooth_rs.Async.Peripheral.Topics.{IsFixed}
use corebluetooth_rs.Async.Trace.{Call, Trace}

-- The value, or the error in its place, that an input brings for a characteristic.
abbrev pub values : Input → ℕ → List Update
values (callback (Callback.did_update_value_for_characteristic j (ok u) (some bytes) n)) k =
    if j == k then Update.bytes (ok bytes) ∷ [] else []
values (callback (Callback.did_update_value_for_characteristic j (err e) v n)) k =
    if j == k then Update.bytes (convert (err e)) ∷ [] else []
values _ k = []

-- Those of a history, the latest first.
abbrev pub all_values : List Input → ℕ → List Update
all_values [] k = []
all_values (input ∷ inputs) k = all_values inputs k ++ values input k

-- The messages sent through a broadcast channel, the latest first.
abbrev pub messages : ℕ → List (Call Update) → List Update
messages channel [] = []
messages channel (Call.try_broadcast c v ∷ calls) =
    let rest = messages channel calls in if c == channel then v ∷ rest else rest
messages channel (_ ∷ calls) = messages channel calls

-- The channels of the characteristics are opened, each for one characteristic.
pub record IsApart (s : State) : Type 0 where
  pub old :
      (k channel : ℕ)
      → get k s.characteristic_value_updates.value ≡ some channel
      → channel < s.trace.next_broadcast
  pub apart :
      (j k channel : ℕ)
      → get j s.characteristic_value_updates.value ≡ some channel
      → get k s.characteristic_value_updates.value ≡ some channel
      → j ≡ k

-- Every characteristic with a channel keeps it, and the messages sent through it grow by this.
pub record Hears (news : ℕ → List Update) (s t : State) : Type 0 where
  pub apart : IsApart t
  pub kept :
      (k channel : ℕ)
      → get k s.characteristic_value_updates.value ≡ some channel
      → get k t.characteristic_value_updates.value ≡ some channel
  pub heard :
      (k channel : ℕ)
      → get k s.characteristic_value_updates.value ≡ some channel
      → messages channel t.trace.calls ≡ news k ++ messages channel s.trace.calls

-- Nothing is sent through a channel of a characteristic.
pub record Silent (t u : Trace Update) : Type 0 where
  pub calls : (channel : ℕ) → 5 ≤ channel → messages channel u.calls ≡ messages channel t.calls
  pub next : t.next_broadcast ≤ u.next_broadcast

abbrev pub no_news : ℕ → List Update
no_news k = []

pub quiet :
    {s : State} (t : State)
    → IsFixed s
    → IsApart s
    → t.characteristic_value_updates.value ≡ s.characteristic_value_updates.value
    → Silent s.trace t.trace
    → Hears no_news s t
quiet {s} t fixed apart same silent = record {
  apart = record {
    old = λ k channel. rw same (λ h. omega (arith, apart.old k channel h, silent.next));
    apart = λ j k channel. rw same (apart.apart j k channel);
  };
  kept = λ k channel. rw same (λ h. h);
  heard = λ k channel h.
      silent.calls channel
        (get-AllLater k channel s.characteristic_value_updates.value fixed.later h);
}

pub unchanged : (t : Trace Update) → Silent t t
unchanged t = record { calls = λ channel le. refl; next = omega arith }

pub resolve-Silent :
    (k : ℕ) (v : Update) (map : OneshotMap) (t : Trace Update) → Silent t (resolve k v map t).1
unfolding resolve
resolve-Silent k v map t = elim (Option-cases (get k map)) [
  | inl e ↦ rw (e, resolve) (unchanged t)
  | inr (old, e) ↦ rw (e, resolve) (record { calls = λ channel le. refl; next = omega arith })
]

pub resolve_cell-Silent :
    (v : Update) (cell : Option ℕ) (t : Trace Update) → Silent t (resolve_cell v cell t).1
unfolding resolve_cell
resolve_cell-Silent v none t = unchanged t
resolve_cell-Silent v (some old) t = record { calls = λ channel le. refl; next = omega arith }

pub register-Silent : (k : ℕ) (map : OneshotMap) (t : Trace Update) → Silent t (register k map t).1
unfolding register
register-Silent k map t = elim (Option-cases (get k map)) [
  | inl e ↦ rw e (record { calls = λ channel le. refl; next = omega arith })
  | inr (old, e) ↦ rw e (record { calls = λ channel le. refl; next = omega arith })
]

pub register_cell-Silent : (cell : Option ℕ) (t : Trace Update) → Silent t (register_cell cell t).1
unfolding register_cell
register_cell-Silent none t = record { calls = λ channel le. refl; next = omega arith }
register_cell-Silent (some old) t = record { calls = λ channel le. refl; next = omega arith }

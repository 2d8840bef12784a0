-- ===== src/Async/Peripheral/Observed.antt =====
-- The mailboxes that a state of corebluetooth-async/src/peripheral.rs stands for, and what each
-- callback and request does to the senders that it keeps, seen as maps.
use corebluetooth_rs.Prelude.{
  ℕ, ◌+◌, ◌≡◌, refl, sym, Option, none, some, List, [], ◌∷◌, Option-cases, inl, inr, if◌then◌else◌,
}
use corebluetooth_rs.Prelude.HashMap.{get, insert, remove, remove_absent}
use corebluetooth_rs.Async.Oneshot.{OneshotMap, register, resolve, register_cell, resolve_cell}
use corebluetooth_rs.Async.Peripheral.Mailbox.{
  Effect, nothing, asks, answers, Mailboxes, same, end_with,
}
use corebluetooth_rs.Async.Peripheral.Slots.{Slot}
use corebluetooth_rs.Async.Peripheral.State.{State, Update}
use corebluetooth_rs.Async.Trace.{Call, Trace}

-- The cell of the L2CAP requests as a map with the key 0.
abbrev cell_map : Option ℕ → OneshotMap
cell_map none = []
cell_map (some sender) = (0, sender) ∷ []

abbrev pub map_at : Slot → State → OneshotMap
map_at Slot.included_services s = s.included_service_discovery
map_at Slot.characteristics s = s.characteristic_discovery
map_at Slot.descriptors s = s.descriptor_discovery
map_at Slot.notification s = s.notification_updates
map_at Slot.characteristic_write s = s.characteristic_writes
map_at Slot.descriptor_value s = s.descriptor_value_updates
map_at Slot.descriptor_write s = s.descriptor_writes
map_at Slot.l2cap s = cell_map s.l2cap_channel_opened

-- The ends of the oneshot channels in a trace.
unfoldable pub ends_of : List (Call Update) → List (ℕ × Option Update)
ends_of [] = []
ends_of (Call.send id v ∷ calls) = (id, some v) ∷ ends_of calls
ends_of (Call.close id ∷ calls) = (id, none) ∷ ends_of calls
ends_of (_ ∷ calls) = ends_of calls

unfoldable pub observe : State → Mailboxes
observe s = record {
  waiting = λ slot k. get k (map_at slot s);
  ended = ends_of s.trace.calls;
  next = s.trace.next;
}

-- What an effect does to the map of a slot.
abbrev pub changed : Effect → ℕ → Slot → OneshotMap → OneshotMap
changed nothing next slot map = map
changed (asks own k) next slot map = if same own slot then insert k next map else map
changed (answers own k reply) next slot map = if same own slot then remove k map else map

abbrev ended_after : Effect → State → List (ℕ × Option Update) → List (ℕ × Option Update)
ended_after nothing s ended = ended
ended_after (asks own k) s ended = end_with (get k (map_at own s)) none ended
ended_after (answers own k reply) s ended = end_with (get k (map_at own s)) (some reply) ended

abbrev next_after : Effect → ℕ → ℕ
next_after (asks own k) next = next + 1
next_after _ next = next

pub record Shows (e : Effect) (s t : State) : Type 0 where
  pub maps : (slot : Slot) → map_at slot t ≡ changed e s.trace.next slot (map_at slot s)
  pub ended : ends_of t.trace.calls ≡ ended_after e s (ends_of s.trace.calls)
  pub next : t.trace.next ≡ next_after e s.trace.next

-- The map that a registration leaves, and the ends that it adds; the same for a callback.
pub registered_ends :
    (k : ℕ) (map : OneshotMap) (t : Trace Update)
    → ends_of (register k map t).1.calls ≡ end_with (get k map) none (ends_of t.calls)
unfolding register ends_of
registered_ends k map t = elim (Option-cases (get k map)) [
  | inl e ↦ rw e refl
  | inr (old, e) ↦ rw e refl
]

pub resolved_map :
    (k : ℕ) (v : Update) (map : OneshotMap) (t : Trace Update)
    → (resolve k v map t).0 ≡ remove k map
unfolding resolve
resolved_map k v map t = elim (Option-cases (get k map)) [
  | inl e ↦ rw (e, resolve) (sym (remove_absent k map e))
  | inr (old, e) ↦ rw (e, resolve) refl
]

pub resolved_ends :
    (k : ℕ) (v : Update) (map : OneshotMap) (t : Trace Update)
    → ends_of (resolve k v map t).1.calls ≡ end_with (get k map) (some v) (ends_of t.calls)
unfolding resolve ends_of
resolved_ends k v map t = elim (Option-cases (get k map)) [
  | inl e ↦ rw (e, resolve) refl
  | inr (old, e) ↦ rw (e, resolve) refl
]

pub registered_cell :
    (cell : Option ℕ) (t : Trace Update)
    → cell_map (register_cell cell t).0 ≡ insert 0 t.next (cell_map cell)
unfolding register_cell insert
registered_cell none t = refl
registered_cell (some old) t = refl

pub registered_cell_ends :
    (cell : Option ℕ) (t : Trace Update)
    → ends_of (register_cell cell t).1.calls
      ≡ end_with (get 0 (cell_map cell)) none (ends_of t.calls)
unfolding register_cell ends_of get
registered_cell_ends none t = refl
registered_cell_ends (some old) t = refl

pub resolved_cell :
    (v : Update) (cell : Option ℕ) (t : Trace Update)
    → cell_map (resolve_cell v cell t).0 ≡ remove 0 (cell_map cell)
unfolding resolve_cell remove
resolved_cell v none t = refl
resolved_cell v (some old) t = refl

pub resolved_cell_ends :
    (v : Update) (cell : Option ℕ) (t : Trace Update)
    → ends_of (resolve_cell v cell t).1.calls
      ≡ end_with (get 0 (cell_map cell)) (some v) (ends_of t.calls)
unfolding resolve_cell ends_of get
resolved_cell_ends v none t = refl
resolved_cell_ends v (some old) t = refl

-- ===== src/Async/Peripheral/Placed.antt =====
-- What the requests and the callbacks of corebluetooth-async/src/peripheral.rs do to the place of
-- their sender, for all places at once.
use corebluetooth_rs.Prelude.{ℕ, ◌+◌, ◌≡◌, refl, some, none}
use corebluetooth_rs.Prelude.HashMap.{get}
use corebluetooth_rs.Async.Oneshot.{
  register, register_cell, resolve, resolve_cell, resolve_next, resolve_cell_next,
}
use corebluetooth_rs.Async.Peripheral.Mailbox.{asks, answers, end_with}
use corebluetooth_rs.Async.Peripheral.Observed.{
  Shows, changed, ends_of, map_at, registered_cell, registered_cell_ends, registered_ends,
  resolved_cell, resolved_cell_ends, resolved_ends, resolved_map,
}
use corebluetooth_rs.Async.Peripheral.Requests
use corebluetooth_rs.Async.Peripheral.Slots.{Slot}
use corebluetooth_rs.Async.Peripheral.State.{State, Update}
use corebluetooth_rs.Bluetooth.Messages.{Message}

-- The key of a request: all L2CAP requests share one.
abbrev key : Slot → ℕ → ℕ
key Slot.l2cap k = 0
key _ k = k

abbrev pub answered : Slot → ℕ → Update → State → State
answered Slot.included_services k reply s =
    let (map, trace) = resolve k reply s.included_service_discovery s.trace in
    record s { included_service_discovery = map; trace = trace }
answered Slot.characteristics k reply s =
    let (map, trace) = resolve k reply s.characteristic_discovery s.trace in
    record s { characteristic_discovery = map; trace = trace }
answered Slot.descriptors k reply s =
    let (map, trace) = resolve k reply s.descriptor_discovery s.trace in
    record s { descriptor_discovery = map; trace = trace }
answered Slot.notification k reply s =
    let (map, trace) = resolve k reply s.notification_updates s.trace in
    record s { notification_updates = map; trace = trace }
answered Slot.characteristic_write k reply s =
    let (map, trace) = resolve k reply s.characteristic_writes s.trace in
    record s { characteristic_writes = map; trace = trace }
answered Slot.descriptor_value k reply s =
    let (map, trace) = resolve k reply s.descriptor_value_updates s.trace in
    record s { descriptor_value_updates = map; trace = trace }
answered Slot.descriptor_write k reply s =
    let (map, trace) = resolve k reply s.descriptor_writes s.trace in
    record s { descriptor_writes = map; trace = trace }
answered Slot.l2cap k reply s =
    let (cell, trace) = resolve_cell reply s.l2cap_channel_opened s.trace in
    record s { l2cap_channel_opened = cell; trace = trace }

answered_map :
    (own slot : Slot) (k : ℕ) (reply : Update) (s : State)
    → map_at slot (answered own k reply s)
      ≡ changed (answers own (key own k) reply) s.trace.next slot (map_at slot s)
answered_map Slot.included_services Slot.included_services k reply s =
    resolved_map k reply s.included_service_discovery s.trace
answered_map Slot.included_services _ k reply s = refl
answered_map Slot.characteristics Slot.characteristics k reply s =
    resolved_map k reply s.characteristic_discovery s.trace
answered_map Slot.characteristics _ k reply s = refl
answered_map Slot.descriptors Slot.descriptors k reply s =
    resolved_map k reply s.descriptor_discovery s.trace
answered_map Slot.descriptors _ k reply s = refl
answered_map Slot.notification Slot.notification k reply s =
    resolved_map k reply s.notification_updates s.trace
answered_map Slot.notification _ k reply s = refl
answered_map Slot.characteristic_write Slot.characteristic_write k reply s =
    resolved_map k reply s.characteristic_writes s.trace
answered_map Slot.characteristic_write _ k reply s = refl
answered_map Slot.descriptor_value Slot.descriptor_value k reply s =
    resolved_map k reply s.descriptor_value_updates s.trace
answered_map Slot.descriptor_value _ k reply s = refl
answered_map Slot.descriptor_write Slot.descriptor_write k reply s =
    resolved_map k reply s.descriptor_writes s.trace
answered_map Slot.descriptor_write _ k reply s = refl
answered_map Slot.l2cap Slot.l2cap k reply s = resolved_cell reply s.l2cap_channel_opened s.trace
answered_map Slot.l2cap _ k reply s = refl

pub answered-Shows :
    (own : Slot) (k : ℕ) (reply : Update) (s : State)
    → Shows (answers own (key own k) reply) s (answered own k reply s)
answered-Shows own k reply s = record {
  maps = λ slot. answered_map own slot k reply s;
  ended = ended own;
  next = next own;
}
  where
    ended :
        (own : Slot)
        → ends_of (answered own k reply s).trace.calls
          ≡ end_with (get (key own k) (map_at own s)) (some reply) (ends_of s.trace.calls)
    ended Slot.included_services = resolved_ends k reply s.included_service_discovery s.trace
    ended Slot.characteristics = resolved_ends k reply s.characteristic_discovery s.trace
    ended Slot.descriptors = resolved_ends k reply s.descriptor_discovery s.trace
    ended Slot.notification = resolved_ends k reply s.notification_updates s.trace
    ended Slot.characteristic_write = resolved_ends k reply s.characteristic_writes s.trace
    ended Slot.descriptor_value = resolved_ends k reply s.descriptor_value_updates s.trace
    ended Slot.descriptor_write = resolved_ends k reply s.descriptor_writes s.trace
    ended Slot.l2cap = resolved_cell_ends reply s.l2cap_channel_opened s.trace

    next : (own : Slot) → (answered own k reply s).trace.next ≡ s.trace.next
    next Slot.included_services = resolve_next k reply s.included_service_discovery s.trace
    next Slot.characteristics = resolve_next k reply s.characteristic_discovery s.trace
    next Slot.descriptors = resolve_next k reply s.descriptor_discovery s.trace
    next Slot.notification = resolve_next k reply s.notification_updates s.trace
    next Slot.characteristic_write = resolve_next k reply s.characteristic_writes s.trace
    next Slot.descriptor_value = resolve_next k reply s.descriptor_value_updates s.trace
    next Slot.descriptor_write = resolve_next k reply s.descriptor_writes s.trace
    next Slot.l2cap = resolve_cell_next reply s.l2cap_channel_opened s.trace

-- A request tells CoreBluetooth first, and keeps its sender then.
abbrev pub asked : Slot → ℕ → Message → State → State
asked Slot.included_services k message s =
    let (map, trace) = register k s.included_service_discovery (Requests.tell message s).trace in
    record s { included_service_discovery = map; trace = trace }
asked Slot.characteristics k message s =
    let (map, trace) = register k s.characteristic_discovery (Requests.tell message s).trace in
    record s { characteristic_discovery = map; trace = trace }
asked Slot.descriptors k message s =
    let (map, trace) = register k s.descriptor_discovery (Requests.tell message s).trace in
    record s { descriptor_discovery = map; trace = trace }
asked Slot.notification k message s =
    let (map, trace) = register k s.notification_updates (Requests.tell message s).trace in
    record s { notification_updates = map; trace = trace }
asked Slot.characteristic_write k message s =
    let (map, trace) = register k s.characteristic_writes (Requests.tell message s).trace in
    record s { characteristic_writes = map; trace = trace }
asked Slot.descriptor_value k message s =
    let (map, trace) = register k s.descriptor_value_updates (Requests.tell message s).trace in
    record s { descriptor_value_updates = map; trace = trace }
asked Slot.descriptor_write k message s =
    let (map, trace) = register k s.descriptor_writes (Requests.tell message s).trace in
    record s { descriptor_writes = map; trace = trace }
asked Slot.l2cap k message s =
    let (cell, trace) = register_cell s.l2cap_channel_opened (Requests.tell message s).trace in
    record s { l2cap_channel_opened = cell; trace = trace }

asked_map :
    (own slot : Slot) (k : ℕ) (message : Message) (s : State)
    → map_at slot (asked own k message s)
      ≡ changed (asks own (key own k)) s.trace.next slot (map_at slot s)
unfolding register
asked_map Slot.included_services Slot.included_services k message s = refl
asked_map Slot.included_services _ k message s = refl
asked_map Slot.characteristics Slot.characteristics k message s = refl
asked_map Slot.characteristics _ k message s = refl
asked_map Slot.descriptors Slot.descriptors k message s = refl
asked_map Slot.descriptors _ k message s = refl
asked_map Slot.notification Slot.notification k message s = refl
asked_map Slot.notification _ k message s = refl
asked_map Slot.characteristic_write Slot.characteristic_write k message s = refl
asked_map Slot.characteristic_write _ k message s = refl
asked_map Slot.descriptor_value Slot.descriptor_value k message s = refl
asked_map Slot.descriptor_value _ k message s = refl
asked_map Slot.descriptor_write Slot.descriptor_write k message s = refl
asked_map Slot.descriptor_write _ k message s = refl
asked_map Slot.l2cap Slot.l2cap k message s =
    registered_cell s.l2cap_channel_opened (Requests.tell message s).trace
asked_map Slot.l2cap _ k message s = refl

pub asked-Shows :
    (own : Slot) (k : ℕ) (message : Message) (s : State)
    → Shows (asks own (key own k)) s (asked own k message s)
unfolding register register_cell ends_of
asked-Shows own k message s = record {
  maps = λ slot. asked_map own slot k message s;
  ended = ended own;
  next = next own;
}
  where
    told : State
    told = Requests.tell message s

    ended :
        (own : Slot)
        → ends_of (asked own k message s).trace.calls
          ≡ end_with (get (key own k) (map_at own s)) none (ends_of s.trace.calls)
    ended Slot.included_services = registered_ends k s.included_service_discovery told.trace
    ended Slot.characteristics = registered_ends k s.characteristic_discovery told.trace
    ended Slot.descriptors = registered_ends k s.descriptor_discovery told.trace
    ended Slot.notification = registered_ends k s.notification_updates told.trace
    ended Slot.characteristic_write = registered_ends k s.characteristic_writes told.trace
    ended Slot.descriptor_value = registered_ends k s.descriptor_value_updates told.trace
    ended Slot.descriptor_write = registered_ends k s.descriptor_writes told.trace
    ended Slot.l2cap = registered_cell_ends s.l2cap_channel_opened told.trace

    next : (own : Slot) → (asked own k message s).trace.next ≡ s.trace.next + 1
    next Slot.included_services = refl
    next _ = refl

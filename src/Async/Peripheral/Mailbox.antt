-- ===== src/Async/Peripheral/Mailbox.antt =====
-- What corebluetooth-async/src/peripheral.rs promises about its pending requests, apart from the
-- code: a mailbox for each object and kind of request, in which one request at most waits. A new
-- request turns the one that waits away, and an answer goes to the one that waits, if any.
use corebluetooth_rs.Prelude.{
  ℕ, ◌+◌, Bool, Option, none, some, List, [], ◌∷◌, ok, err, map_ok, ◌==◌, if◌then◌else◌,
}
use corebluetooth_rs.Async.Peripheral.Callbacks.{convert}
use corebluetooth_rs.Async.Peripheral.Run.{Callback, Request, Input, callback, ask}
use corebluetooth_rs.Async.Peripheral.Slots.{Slot}
use corebluetooth_rs.Async.Peripheral.State.{Update}

-- What an input means for the mailboxes. All L2CAP requests share one.
pub data Effect : Type 0 where
  nothing : Effect
  asks : Slot → ℕ → Effect
  answers : Slot → ℕ → Update → Effect

unfoldable pub meaning : Input → Effect
meaning (ask (Request.discover_included_services k o)) = asks Slot.included_services k
meaning (ask (Request.discover_characteristics k o)) = asks Slot.characteristics k
meaning (ask (Request.discover_descriptors k)) = asks Slot.descriptors k
meaning (ask (Request.set_notify k b)) = asks Slot.notification k
meaning (ask (Request.write_characteristic_value k b t)) = asks Slot.characteristic_write k
meaning (ask (Request.read_descriptor_value k)) = asks Slot.descriptor_value k
meaning (ask (Request.write_descriptor_value k b)) = asks Slot.descriptor_write k
meaning (ask (Request.open_l2cap_channel psm)) = asks Slot.l2cap 0
meaning (callback (Callback.did_discover_included_services k r)) =
    answers Slot.included_services k (Update.unit (convert r))
meaning (callback (Callback.did_discover_characteristics k r)) =
    answers Slot.characteristics k (Update.unit (convert r))
meaning (callback (Callback.did_discover_descriptors k r)) =
    answers Slot.descriptors k (Update.unit (convert r))
meaning (callback (Callback.did_update_notification_state k r b)) =
    answers Slot.notification k (Update.notifying (convert (map_ok (λ _. b) r)))
meaning (callback (Callback.did_write_value_for_characteristic k r)) =
    answers Slot.characteristic_write k (Update.unit (convert r))
meaning (callback (Callback.did_update_value_for_descriptor k (ok u) (some bytes))) =
    answers Slot.descriptor_value k (Update.bytes (ok bytes))
meaning (callback (Callback.did_update_value_for_descriptor k (err e) v)) =
    answers Slot.descriptor_value k (Update.bytes (convert (err e)))
meaning (callback (Callback.did_write_value_for_descriptor k r)) =
    answers Slot.descriptor_write k (Update.unit (convert r))
meaning (callback (Callback.did_open_l2cap_channel r)) =
    answers Slot.l2cap 0 (Update.channel (convert r))
meaning _ = nothing

-- The requests that wait, how each request that no longer waits ended (with an answer, or turned
-- away), the latest first, and the number of the next request.
pub record Mailboxes : Type 0 where
  pub waiting : Slot → ℕ → Option ℕ
  pub ended : List (ℕ × Option Update)
  pub next : ℕ

abbrev pub empty : Mailboxes
empty = record { waiting = λ slot k. none; ended = []; next = 0 }

abbrev number : Slot → ℕ
number Slot.included_services = 0
number Slot.characteristics = 1
number Slot.descriptors = 2
number Slot.notification = 3
number Slot.characteristic_write = 4
number Slot.descriptor_value = 5
number Slot.descriptor_write = 6
number Slot.l2cap = 7

abbrev pub same : Slot → Slot → Bool
same a b = number a == number b

abbrev pub put : Slot → ℕ → Option ℕ → (Slot → ℕ → Option ℕ) → Slot → ℕ → Option ℕ
put slot k waiter waiting slot' k' =
    if same slot slot' then (if k == k' then waiter else waiting slot' k') else waiting slot' k'

abbrev pub end_with : Option ℕ → Option Update → List (ℕ × Option Update) → List (ℕ × Option Update)
end_with none reply ended = ended
end_with (some id) reply ended = (id, reply) ∷ ended

unfoldable pub perform : Effect → Mailboxes → Mailboxes
perform nothing w = w
perform (asks slot k) w = record {
  waiting = put slot k (some w.next) w.waiting;
  ended = end_with (w.waiting slot k) none w.ended;
  next = w.next + 1;
}
perform (answers slot k reply) w = record {
  waiting = put slot k none w.waiting;
  ended = end_with (w.waiting slot k) (some reply) w.ended;
  next = w.next;
}

unfoldable pub perform_all : List Input → Mailboxes → Mailboxes
unfolding perform meaning
perform_all [] w = w
perform_all (input ∷ inputs) w = perform_all inputs (perform (meaning input) w)

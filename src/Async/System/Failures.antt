-- ===== src/Async/System/Failures.antt =====
-- From end to end: an error of CoreBluetooth goes through the bridge
-- (corebluetooth/src/peripheral.rs) and the delegate (corebluetooth-async/src/peripheral.rs) to the
-- future that waits for it.
use corebluetooth_rs.Prelude.{ℕ, ◌≡◌, refl, none, some, done, ok, err}
use corebluetooth_rs.Async.Crate.{OneshotCrate, pending, ready}
use corebluetooth_rs.Async.Peripheral.Slots.{Slot, Answers}
use corebluetooth_rs.Async.Peripheral.State.{Update}
use corebluetooth_rs.Async.System.Adopted.{state_of}
use corebluetooth_rs.Async.System.Awaiting.{Asked, answer_told}
use corebluetooth_rs.Async.System.Heard.{Reading, heard}
use corebluetooth_rs.Async.System.Step
use corebluetooth_rs.Async.System.Step.{System, Event, step, run, start, run_delegate}
use corebluetooth_rs.Bluetooth.Bridge
use corebluetooth_rs.Bluetooth.Bridge.{bridge_of, converted, Told}
use corebluetooth_rs.Bluetooth.Btuuid.{BtuuidCrate}
use corebluetooth_rs.Error.Async.{Error, from_error}
use corebluetooth_rs.Error.Codes.{NsError}
use corebluetooth_rs.Error.Sync.{from_nserror}

-- CoreBluetooth reports an error for the request that waits in the slot for the object.
pub data Fails : Bridge.Raw → Slot → ℕ → NsError → Type 0 where
  included_services :
      (k : ℕ) (e : NsError)
      → Fails (Bridge.Raw.did_discover_included_services k (some e)) Slot.included_services k e
  characteristics :
      (k : ℕ) (e : NsError)
      → Fails (Bridge.Raw.did_discover_characteristics k (some e)) Slot.characteristics k e
  descriptors :
      (k : ℕ) (e : NsError)
      → Fails (Bridge.Raw.did_discover_descriptors k (some e)) Slot.descriptors k e
  notification :
      (k : ℕ) (e : NsError)
      → Fails (Bridge.Raw.did_update_notification_state k (some e)) Slot.notification k e
  characteristic_write :
      (k : ℕ) (e : NsError)
      → Fails
          (Bridge.Raw.did_write_value_for_characteristic k (some e))
          Slot.characteristic_write
          k
          e
  descriptor_value :
      (k : ℕ) (e : NsError)
      → Fails (Bridge.Raw.did_update_value_for_descriptor k (some e)) Slot.descriptor_value k e
  descriptor_write :
      (k : ℕ) (e : NsError)
      → Fails (Bridge.Raw.did_write_value_for_descriptor k (some e)) Slot.descriptor_write k e
  l2cap :
      (k : ℕ) (e : NsError) → Fails (Bridge.Raw.did_open_l2cap_channel none (some e)) Slot.l2cap k e

-- An error as what the channels of the slot carry.
abbrev failure : Slot → Error → Update
failure Slot.notification e = Update.notifying (err e)
failure Slot.descriptor_value e = Update.bytes (err e)
failure Slot.l2cap e = Update.channel (err e)
failure _ e = Update.unit (err e)

failed :
    {raw : Bridge.Raw} {slot : Slot} {k : ℕ} {e : NsError} (f : Fails raw slot k e)
    (reading : Reading)
    → (told : Told) × (converted raw ≡ done told)
      × Answers (heard reading told) slot k (failure slot (from_error (from_nserror e)))
unfolding converted heard
failed (Fails.included_services k e) reading = (_, refl, Answers.included_services k _)
failed (Fails.characteristics k e) reading = (_, refl, Answers.characteristics k _)
failed (Fails.descriptors k e) reading = (_, refl, Answers.descriptors k _)
failed (Fails.notification k e) reading = (_, refl, Answers.notification k _ _)
failed (Fails.characteristic_write k e) reading = (_, refl, Answers.characteristic_write k _)
failed (Fails.descriptor_value k e) reading = (_, refl, Answers.value_failed k _ _)
failed (Fails.descriptor_write k e) reading = (_, refl, Answers.descriptor_write k _)
failed (Fails.l2cap k e) reading = (_, refl, Answers.l2cap k _)

-- The future of a request is pending while nothing that happens to the crates asks or answers its
-- slot for its object. When CoreBluetooth then reports an error for it, nothing panics, and the
-- future resolves at once to an error that holds CoreBluetooth's own.
pub error_reported :
    (crate : OneshotCrate Update) (btuuid : BtuuidCrate) (q : ℕ) (slot : Slot) (k id : ℕ)
    (sys : System)
    → Asked btuuid q slot k id sys
    → (raw : Bridge.Raw) (e : NsError) → Fails raw slot k e
    → (reading : Reading)
    → (crate.poll (state_of q sys).trace.calls id ≡ pending)
      × (t : System) × (step btuuid (Step.told q raw reading) sys ≡ done t)
      × (crate.poll (state_of q t).trace.calls id
          ≡ ready (ok (failure slot (from_error (from_nserror e)))))
error_reported crate btuuid q slot k id sys asked raw e fails reading =
    let (told, conversion, answers) = failed fails reading in
    answer_told crate btuuid q slot k id sys asked raw reading _ conversion answers

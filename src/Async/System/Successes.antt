-- ===== src/Async/System/Successes.antt =====
-- From end to end: what CoreBluetooth reports for a request that succeeded goes through the bridge
-- (corebluetooth/src/peripheral.rs) and the delegate (corebluetooth-async/src/peripheral.rs) to the
-- future that waits for it.
use corebluetooth_rs.Prelude.{ℕ, ◌≡◌, refl, none, some, done, ok}
use corebluetooth_rs.Async.Crate.{OneshotCrate, pending, ready}
use corebluetooth_rs.Async.Peripheral.Slots.{Slot, Answers}
use corebluetooth_rs.Async.Peripheral.State.{Update}
use corebluetooth_rs.Async.System.Adopted.{state_of}
use corebluetooth_rs.Async.System.Awaiting.{Asked, answer_told}
use corebluetooth_rs.Async.System.Heard.{Reading, heard}
use corebluetooth_rs.Async.System.Step
use corebluetooth_rs.Async.System.Step.{System, Event, step, run, start, run_delegate}
use corebluetooth_rs.Bluetooth.Bridge
use corebluetooth_rs.Bluetooth.Bridge.{bridge_of, converted, Told}
use corebluetooth_rs.Bluetooth.Btuuid.{BtuuidCrate}
use corebluetooth_rs.Bluetooth.L2cap
use corebluetooth_rs.Bluetooth.L2cap.{CbChannel}
use corebluetooth_rs.Prelude.Bytes.{Bytes}

-- CoreBluetooth reports without an error what the request that waits in the slot for the object
-- asked for, and the answer is what the delegate reads at that moment.
pub data Succeeds : Bridge.Raw → Reading → Slot → ℕ → Update → Type 0 where
  included_services :
      (k : ℕ) (reading : Reading)
      → Succeeds
          (Bridge.Raw.did_discover_included_services k none)
          reading
          Slot.included_services
          k
          (Update.unit (ok tt))
  characteristics :
      (k : ℕ) (reading : Reading)
      → Succeeds
          (Bridge.Raw.did_discover_characteristics k none)
          reading
          Slot.characteristics
          k
          (Update.unit (ok tt))
  descriptors :
      (k : ℕ) (reading : Reading)
      → Succeeds
          (Bridge.Raw.did_discover_descriptors k none)
          reading
          Slot.descriptors
          k
          (Update.unit (ok tt))
  characteristic_write :
      (k : ℕ) (reading : Reading)
      → Succeeds
          (Bridge.Raw.did_write_value_for_characteristic k none)
          reading
          Slot.characteristic_write
          k
          (Update.unit (ok tt))
  descriptor_write :
      (k : ℕ) (reading : Reading)
      → Succeeds
          (Bridge.Raw.did_write_value_for_descriptor k none)
          reading
          Slot.descriptor_write
          k
          (Update.unit (ok tt))
  notification :
      (k : ℕ) (reading : Reading)
      → Succeeds
          (Bridge.Raw.did_update_notification_state k none)
          reading
          Slot.notification
          k
          (Update.notifying (ok reading.is_notifying))
  descriptor_value :
      (k : ℕ) (reading : Reading) (bytes : Bytes)
      → reading.value ≡ some bytes
      → Succeeds
          (Bridge.Raw.did_update_value_for_descriptor k none)
          reading
          Slot.descriptor_value
          k
          (Update.bytes (ok bytes))
  l2cap :
      (k : ℕ) (reading : Reading) (channel : CbChannel) (opened : ℕ × ℕ)
      → L2cap.new channel ≡ done opened
      → Succeeds
          (Bridge.Raw.did_open_l2cap_channel (some channel) none)
          reading
          Slot.l2cap
          k
          (Update.channel (ok opened))

succeeded :
    {raw : Bridge.Raw} {reading : Reading} {slot : Slot} {k : ℕ} {u : Update}
    → Succeeds raw reading slot k u
    → (told : Told) × (converted raw ≡ done told) × Answers (heard reading told) slot k u
unfolding converted heard Bridge.or_err Bridge.opened
succeeded (Succeeds.included_services k reading) = (_, refl, Answers.included_services k (ok tt))
succeeded (Succeeds.characteristics k reading) = (_, refl, Answers.characteristics k (ok tt))
succeeded (Succeeds.descriptors k reading) = (_, refl, Answers.descriptors k (ok tt))
succeeded (Succeeds.characteristic_write k reading) =
    (_, refl, Answers.characteristic_write k (ok tt))
succeeded (Succeeds.descriptor_write k reading) = (_, refl, Answers.descriptor_write k (ok tt))
succeeded (Succeeds.notification k reading) =
    (_, refl, Answers.notification k (ok tt) reading.is_notifying)
succeeded (Succeeds.descriptor_value k reading bytes h) =
    (Told.did_update_value_for_descriptor k (ok tt), refl, rw h (Answers.value_read k tt bytes))
succeeded (Succeeds.l2cap k reading channel opened h) =
    (Told.did_open_l2cap_channel (ok opened), rw h refl, Answers.l2cap k (ok opened))

-- The future of a request is pending while nothing that happens to the crates asks or answers its
-- slot for its object. When CoreBluetooth then reports without an error that what it asks for is
-- there (a descriptor with its value, an L2CAP channel whose streams can be read), nothing panics,
-- and the future resolves at once: to the value that the delegate reads of the descriptor, to
-- whether the characteristic notifies, to the channel, or to the unit.
pub success_reported :
    (crate : OneshotCrate Update) (btuuid : BtuuidCrate) (q : ℕ) (slot : Slot) (k id : ℕ)
    (sys : System)
    → Asked btuuid q slot k id sys
    → (raw : Bridge.Raw) (reading : Reading) (u : Update) → Succeeds raw reading slot k u
    → (crate.poll (state_of q sys).trace.calls id ≡ pending)
      × (t : System) × (step btuuid (Step.told q raw reading) sys ≡ done t)
      × (crate.poll (state_of q t).trace.calls id ≡ ready (ok u))
success_reported crate btuuid q slot k id sys asked raw reading u succeeds =
    let (told, conversion, answers) = succeeded succeeds in
    answer_told crate btuuid q slot k id sys asked raw reading u conversion answers

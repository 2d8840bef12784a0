-- ===== src/Async/Peripheral/Slots.antt =====
-- Which request of corebluetooth-async/src/peripheral.rs waits for which callback: the places
-- where the delegate keeps oneshot senders, a description apart from the code.
use corebluetooth_rs.Prelude.{ℕ, Bool, Option, some, none, List, ok, err, map_ok}
use corebluetooth_rs.Prelude.Bytes.{Bytes}
use corebluetooth_rs.Prelude.HashMap.{get}
use corebluetooth_rs.Bluetooth.Btuuid.{BluetoothUuid}
use corebluetooth_rs.Bluetooth.Peripheral.{CharacteristicWriteType}
use corebluetooth_rs.Async.Peripheral.Callbacks.{convert}
use corebluetooth_rs.Async.Peripheral.Run.{Callback, Request, Input, callback, ask}
use corebluetooth_rs.Async.Peripheral.State.{State, Update, CbResult}
use corebluetooth_rs.Error.Sync

pub data Slot : Type 0 where
  included_services characteristics descriptors notification : Slot
  characteristic_write descriptor_value descriptor_write l2cap : Slot

-- The sender that waits in a slot for the object `key`; the last slot has one place.
abbrev pub waiter : Slot → ℕ → State → Option ℕ
waiter Slot.included_services key s = get key s.included_service_discovery
waiter Slot.characteristics key s = get key s.characteristic_discovery
waiter Slot.descriptors key s = get key s.descriptor_discovery
waiter Slot.notification key s = get key s.notification_updates
waiter Slot.characteristic_write key s = get key s.characteristic_writes
waiter Slot.descriptor_value key s = get key s.descriptor_value_updates
waiter Slot.descriptor_write key s = get key s.descriptor_writes
waiter Slot.l2cap key s = s.l2cap_channel_opened

-- The request waits in the slot for the object.
pub data Asks : Request → Slot → ℕ → Type 0 where
  included_services :
      (k : ℕ) (o : Option (List BluetoothUuid))
      → Asks (Request.discover_included_services k o) Slot.included_services k
  characteristics :
      (k : ℕ) (o : Option (List BluetoothUuid))
      → Asks (Request.discover_characteristics k o) Slot.characteristics k
  descriptors : (k : ℕ) → Asks (Request.discover_descriptors k) Slot.descriptors k
  notification : (k : ℕ) (b : Bool) → Asks (Request.set_notify k b) Slot.notification k
  characteristic_write :
      (k : ℕ) (b : Bytes) (t : CharacteristicWriteType)
      → Asks (Request.write_characteristic_value k b t) Slot.characteristic_write k
  descriptor_value : (k : ℕ) → Asks (Request.read_descriptor_value k) Slot.descriptor_value k
  descriptor_write :
      (k : ℕ) (b : Bytes) → Asks (Request.write_descriptor_value k b) Slot.descriptor_write k
  l2cap : (psm k : ℕ) → Asks (Request.open_l2cap_channel psm) Slot.l2cap k

-- The callback answers the slot for the object with the update.
pub data Answers : Callback → Slot → ℕ → Update → Type 0 where
  included_services :
      (k : ℕ) (r : CbResult (Unit {0}))
      → Answers
          (Callback.did_discover_included_services k r)
          Slot.included_services
          k
          (Update.unit (convert r))
  characteristics :
      (k : ℕ) (r : CbResult (Unit {0}))
      → Answers
          (Callback.did_discover_characteristics k r)
          Slot.characteristics
          k
          (Update.unit (convert r))
  descriptors :
      (k : ℕ) (r : CbResult (Unit {0}))
      → Answers (Callback.did_discover_descriptors k r) Slot.descriptors k (Update.unit (convert r))
  notification :
      (k : ℕ) (r : CbResult (Unit {0})) (b : Bool)
      → Answers
          (Callback.did_update_notification_state k r b)
          Slot.notification
          k
          (Update.notifying (convert (map_ok (λ _. b) r)))
  characteristic_write :
      (k : ℕ) (r : CbResult (Unit {0}))
      → Answers
          (Callback.did_write_value_for_characteristic k r)
          Slot.characteristic_write
          k
          (Update.unit (convert r))
  value_read :
      (k : ℕ) (u : Unit {0}) (bytes : Bytes)
      → Answers
          (Callback.did_update_value_for_descriptor k (ok u) (some bytes))
          Slot.descriptor_value
          k
          (Update.bytes (ok bytes))
  value_failed :
      (k : ℕ) (e : Sync.Error) (v : Option Bytes)
      → Answers
          (Callback.did_update_value_for_descriptor k (err e) v)
          Slot.descriptor_value
          k
          (Update.bytes (convert (err e)))
  descriptor_write :
      (k : ℕ) (r : CbResult (Unit {0}))
      → Answers
          (Callback.did_write_value_for_descriptor k r)
          Slot.descriptor_write
          k
          (Update.unit (convert r))
  l2cap :
      (k : ℕ) (r : CbResult (ℕ × ℕ))
      → Answers (Callback.did_open_l2cap_channel r) Slot.l2cap k (Update.channel (convert r))

-- The input asks or answers the slot for the object.
pub data Touches : Input → Slot → ℕ → Type 0 where
  asks : {r : Request} {slot : Slot} {k : ℕ} → Asks r slot k → Touches (ask r) slot k
  answers :
      {c : Callback} {slot : Slot} {k : ℕ} {u : Update}
      → Answers c slot k u
      → Touches (callback c) slot k
  -- Without a value the callback answers nothing.
  value_missing :
      (k : ℕ) (u : Unit {0})
      → Touches
          (callback (Callback.did_update_value_for_descriptor k (ok u) none))
          Slot.descriptor_value
          k

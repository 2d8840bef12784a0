-- ===== src/Tests/Wrapper.antt =====
-- The theorems on the crate corebluetooth at concrete options, UUIDs and advertisements.
use mathlib.Core.Logic.{if_pos}
use mathlib.Core.Option
use corebluetooth_rs.Prelude.{
  ◌≡◌, refl, ap, ◌↔◌, [], ◌∷◌, map, true, false, ◌&&◌, done, panic, none, some, if◌then◌else◌,
  arith,
}
use corebluetooth_rs.Prelude.Bytes.{to_be_bytes}
use corebluetooth_rs.Bluetooth.Advertised.{
  objects, uuids_in-objects, from_nsdictionary-eq-panic_iff, data_readable, items_readable,
  service_data_lem, last_value,
}
use corebluetooth_rs.Bluetooth.Advertisement.{
  AdvKey, AdvDictionary, BluetoothUuid-discrete, get as get_data, uuids_in, service_data_of,
  service_loop, put, from_nsdictionary,
}
use corebluetooth_rs.Bluetooth.Btuuid.{BluetoothUuid}
use corebluetooth_rs.Bluetooth.Central
use corebluetooth_rs.Bluetooth.Foundation.{Object, Objects, Entries}
use corebluetooth_rs.Bluetooth.Messages.{Key, Setting}
use corebluetooth_rs.Bluetooth.Options.{ConnectPeripheralOptions, to_dictionary, get}
use corebluetooth_rs.Bluetooth.Sent.{
  asked, get-to_dictionary, decode_option, scanned, options_of, uuids_of, scan_lem,
}
use corebluetooth_rs.Tests.Crates.{btuuid_crate}

abbrev delayed : ConnectPeripheralOptions
delayed = record {
  enable_auto_reconnect = false;
  enable_transport_bridging = true;
  notify_on_connection = false;
  notify_on_disconnection = true;
  notify_on_notification = false;
  requires_ancs = false;
  start_delay = some 7;
}

options_example :
    get Key.notify_on_disconnection (to_dictionary delayed)
    ≡ asked delayed Key.notify_on_disconnection
options_example = get-to_dictionary delayed Key.notify_on_disconnection

abbrev heart_rate : BluetoothUuid
heart_rate = BluetoothUuid.uuid16 0x180d

abbrev wide : BluetoothUuid
wide = BluetoothUuid.uuid32 0x12345678

scan_example :
    let message = Central.scan (some (heart_rate ∷ [])) true none in
    (decode_option btuuid_crate (scanned message) ≡ Option.map (map some) (some (heart_rate ∷ [])))
    × (get Key.allow_duplicates (options_of message)
        ≡ (if true then some (Setting.boolean true) else none))
    × (decode_option btuuid_crate (uuids_of (get Key.solicited_service_uuids (options_of message)))
        ≡ Option.map (map some) none)
scan_example = scan_lem btuuid_crate (some (heart_rate ∷ [])) true none (omega arith, tt) tt

uuids_in_example :
    uuids_in btuuid_crate (objects (heart_rate ∷ wide ∷ [])) ≡ done (heart_rate ∷ wide ∷ [])
uuids_in_example =
    uuids_in-objects btuuid_crate (heart_rate ∷ wide ∷ []) (omega arith, (omega arith, tt))

-- Two entries for one service; and an advertisement with a `CBUUID` of three bytes.
abbrev twice : Entries
twice =
    Entries.entry (Object.uuid (to_be_bytes 2 0x180d)) (Object.bytes (1 ∷ []))
      (Entries.entry (Object.uuid (to_be_bytes 2 0x180d)) (Object.bytes (2 ∷ [])) Entries.end)

abbrev broken : AdvDictionary
broken AdvKey.service_uuids =
    some (Object.array (Objects.cons (Object.uuid (1 ∷ 2 ∷ 3 ∷ [])) Objects.nil))
broken AdvKey.service_data = some (Object.dictionary twice)
broken _ = none

service_data_example :
    get_data heart_rate ((heart_rate, 2 ∷ []) ∷ []) ≡ last_value btuuid_crate heart_rate twice none
unfolding service_data_of service_loop put
service_data_example =
    service_data_lem btuuid_crate heart_rate twice {m = (heart_rate, 2 ∷ []) ∷ []}
      (ap done (if_pos (BluetoothUuid-discrete heart_rate heart_rate) refl _ _))

advertisement_example : (from_nsdictionary btuuid_crate broken ≡ panic) ↔ (
    (data_readable btuuid_crate (broken AdvKey.service_data)
      && (items_readable btuuid_crate (broken AdvKey.service_uuids)
          && (items_readable btuuid_crate (broken AdvKey.overflow_service_uuids)
              && items_readable btuuid_crate (broken AdvKey.solicited_service_uuids))))
    ≡ false)
advertisement_example = from_nsdictionary-eq-panic_iff btuuid_crate broken

-- ===== src/Bluetooth/Advertisement.antt =====
-- corebluetooth/src/advertisement_data.rs: `AdvertisementData`, `ManufacturerData` and
-- `AdvertisementData::from_nsdictionary`.
use mathlib.Core.Logic.{ite}
use native.Mathlib.Decide.{ℕ_discrete}
use corebluetooth_rs.Prelude.{
  ℕ, Bool, false, Option, none, some, List, [], ◌∷◌, Outcome, done, ◌>>=◌, unwrap, length, take,
  drop, leb, if◌then◌else◌,
}
use corebluetooth_rs.Prelude.Bytes.{Bytes, from_le_bytes}
use corebluetooth_rs.Bluetooth.Btuuid.{BluetoothUuid, BtuuidCrate}
use corebluetooth_rs.Bluetooth.Foundation.{Object, Objects, Entries}

pub record ManufacturerData : Type 0 where
  pub company_id : ℕ
  pub payload : Bytes

-- `service_data` is a hash map, the entries of which are in no particular order.
pub record AdvertisementData : Type 0 where
  pub local_name : Option Bytes
  pub manufacturer_data : Option ManufacturerData
  pub service_data : List (BluetoothUuid × Bytes)
  pub service_uuids : List BluetoothUuid
  pub overflow_service_uuids : List BluetoothUuid
  pub tx_power_level : Option ℕ
  pub is_connectable : Bool
  pub solicited_service_uuids : List BluetoothUuid

-- The keys `CBAdvertisementData…`.
pub data AdvKey : Type 0 where
  is_connectable local_name manufacturer_data tx_power_level service_data : AdvKey
  service_uuids overflow_service_uuids solicited_service_uuids : AdvKey

-- `objectForKey` of the dictionary.
abbrev pub AdvDictionary : Type 0
AdvDictionary = AdvKey → Option Object

unfoldable pub BluetoothUuid-discrete : Discrete BluetoothUuid
BluetoothUuid-discrete = hlevel ℕ_discrete

unfoldable pub put :
    BluetoothUuid → Bytes → List (BluetoothUuid × Bytes) → List (BluetoothUuid × Bytes)
put key value [] = (key, value) ∷ []
put key value ((k, v) ∷ m) =
    ite (BluetoothUuid-discrete k key) ((key, value) ∷ m) ((k, v) ∷ put key value m)

unfoldable pub get : BluetoothUuid → List (BluetoothUuid × Bytes) → Option Bytes
get key [] = none
get key ((k, v) ∷ m) = ite (BluetoothUuid-discrete k key) (some v) (get key m)

abbrev connectable : Option Object → Bool
connectable (some (Object.number n)) = n.as_bool
connectable _ = false

abbrev name_of : Option Object → Option Bytes
name_of (some (Object.string s)) = some s.text
name_of _ = none

unfoldable pub manufacturer : Bytes → Option ManufacturerData
manufacturer val =
    if leb 2 (length val)
    then some (record { company_id = from_le_bytes (take 2 val); payload = drop 2 val })
    else none

abbrev manufacturer_of : Option Object → Option ManufacturerData
manufacturer_of (some (Object.bytes val)) = manufacturer val
manufacturer_of _ = none

abbrev power_of : Option Object → Option ℕ
power_of (some (Object.number n)) = some n.short_value
power_of _ = none

module _ (btuuid : BtuuidCrate) where
  -- The items that are a `CBUUID`, each read by `from_be_slice` and unwrapped.
  unfoldable pub uuids_in : Objects → Outcome (List BluetoothUuid)
  uuids_in Objects.nil = done []
  uuids_in (Objects.cons (Object.uuid d) items) = do
    uuid ← unwrap (btuuid.from_be_slice d)
    rest ← uuids_in items
    done (uuid ∷ rest)
  uuids_in (Objects.cons _ items) = uuids_in items

  unfoldable pub uuids_of : Option Object → Outcome (List BluetoothUuid)
  uuids_of (some (Object.array items)) = uuids_in items
  uuids_of _ = done []

  -- The loop over `allKeys`: the entries of a `CBUUID` and an `NSData`, later ones over earlier.
  unfoldable pub service_loop :
      Entries → List (BluetoothUuid × Bytes) → Outcome (List (BluetoothUuid × Bytes))
  service_loop Entries.end res = done res
  service_loop (Entries.entry (Object.uuid d) (Object.bytes val) rest) res = do
    key ← unwrap (btuuid.from_be_slice d)
    service_loop rest (put key val res)
  service_loop (Entries.entry _ _ rest) res = service_loop rest res

  unfoldable pub service_data_of : Option Object → Outcome (List (BluetoothUuid × Bytes))
  service_data_of (some (Object.dictionary entries)) = service_loop entries []
  service_data_of _ = done []

  unfoldable pub from_nsdictionary : AdvDictionary → Outcome AdvertisementData
  unfolding uuids_of service_data_of
  from_nsdictionary adv = do
    found ← service_data_of (adv AdvKey.service_data)
    main ← uuids_of (adv AdvKey.service_uuids)
    overflow ← uuids_of (adv AdvKey.overflow_service_uuids)
    solicited ← uuids_of (adv AdvKey.solicited_service_uuids)
    done (record {
      local_name = name_of (adv AdvKey.local_name);
      manufacturer_data = manufacturer_of (adv AdvKey.manufacturer_data);
      service_data = found;
      service_uuids = main;
      overflow_service_uuids = overflow;
      tx_power_level = power_of (adv AdvKey.tx_power_level);
      is_connectable = connectable (adv AdvKey.is_connectable);
      solicited_service_uuids = solicited;
    })

-- ===== src/Bluetooth/Advertised.antt =====
-- What `AdvertisementData::from_nsdictionary` (corebluetooth/src/advertisement_data.rs) reads, and
-- when it panics.
use mathlib.Core.Logic.{ite}
use corebluetooth_rs.Prelude.{
  ℕ, ◌^◌, ◌<◌, ◌≡◌, ◌↔◌, refl, ap, inl, inr, Bool, true, false, ◌&&◌, Option, none, some, List, [],
  ◌∷◌, ◌++◌, Outcome, done, panic, ◌>>=◌, unwrap, Ensures, Ensures-done, All, arith, Option-cases,
  length, leb,
}
use corebluetooth_rs.Prelude.Bytes.{Bytes, to_le_bytes, from_le_bytes-to_le_bytes}
use corebluetooth_rs.Bluetooth.Advertisement.{
  AdvKey, AdvDictionary, BluetoothUuid-discrete, put, get, manufacturer, uuids_in, uuids_of,
  service_loop, service_data_of, from_nsdictionary,
}
use corebluetooth_rs.Bluetooth.Btuuid.{
  BluetoothUuid, BtuuidCrate, Fits, to_cbuuid, from_be_slice-to_cbuuid,
}
use corebluetooth_rs.Uuid.Ext.{is_some}
use corebluetooth_rs.Bluetooth.Foundation.{Object, Objects, Entries}

-- Manufacturer data made of the two bytes of a 16-bit company identifier, the lower first, and a
-- payload is read as that company and that payload.
manufacturer_lem :
    (company_id : ℕ) (payload : Bytes)
    → company_id < 2 ^ 16
    → manufacturer (to_le_bytes 2 company_id ++ payload)
      ≡ some (record { company_id = company_id; payload = payload })
unfolding manufacturer
manufacturer_lem company_id payload h =
    let long : leb 2 (length (to_le_bytes 2 company_id ++ payload)) ≡ true = ground arith in
    rw long (
      ap (λ n. some (record { company_id = n; payload = payload }))
        (from_le_bytes-to_le_bytes 2 company_id h))

get-put :
    (key j : BluetoothUuid) (value : Bytes) (m : List (BluetoothUuid × Bytes))
    → get j (put key value m) ≡ ite (BluetoothUuid-discrete key j) (some value) (get j m)
unfolding get put
get-put key j value [] = refl
get-put key j value ((k, v) ∷ m) = ground (arith, get-put key j value m)

-- The `CBUUID`s of a list of UUIDs, as `to_cbuuid` makes them, and an object that is none.
abbrev pub objects : List BluetoothUuid → Objects
objects [] = Objects.nil
objects (uuid ∷ uuids) = Objects.cons (Object.uuid (to_cbuuid uuid)) (objects uuids)

module _ (btuuid : BtuuidCrate) where
  -- An array of the `CBUUID`s that `to_cbuuid` makes of UUIDs whose values fit their variants is
  -- read as those UUIDs, in order and without a panic.
  pub uuids_in-objects :
      (uuids : List BluetoothUuid) → All Fits uuids → uuids_in btuuid (objects uuids) ≡ done uuids
  unfolding uuids_in
  uuids_in-objects [] h = refl
  uuids_in-objects (u ∷ uuids) h =
      rw (from_be_slice-to_cbuuid btuuid u h.0, uuids_in-objects uuids h.1) refl

  abbrev is_readable : Bytes → Bool
  is_readable d = is_some (btuuid.from_be_slice d)

  -- Every `CBUUID` whose data is read can be read.
  abbrev all_readable : Objects → Bool
  all_readable Objects.nil = true
  all_readable (Objects.cons (Object.uuid d) items) = is_readable d && all_readable items
  all_readable (Objects.cons _ items) = all_readable items

  abbrev entries_readable : Entries → Bool
  entries_readable Entries.end = true
  entries_readable (Entries.entry (Object.uuid d) (Object.bytes val) rest) =
      is_readable d && entries_readable rest
  entries_readable (Entries.entry _ _ rest) = entries_readable rest

  abbrev pub items_readable : Option Object → Bool
  items_readable (some (Object.array items)) = all_readable items
  items_readable _ = true

  abbrev pub data_readable : Option Object → Bool
  data_readable (some (Object.dictionary entries)) = entries_readable entries
  data_readable _ = true

  bind_panics :
      {A B : Type 0} (m : Outcome A) (f : A → Outcome B) (p q : Bool)
      → ((m ≡ panic) ↔ (p ≡ false))
      → ((a : A) → (f a ≡ panic) ↔ (q ≡ false))
      → ((m >>= f) ≡ panic) ↔ ((p && q) ≡ false)
  bind_panics (done a) f true q h k = k a
  bind_panics (done a) f false q h k = absurd (ground (arith, h.1 refl))
  bind_panics panic f true q h k = absurd (ground (arith, h.0 refl))
  bind_panics panic f false q h k = (λ e. refl, λ e. refl)

  unwrap_panics : (d : Bytes) → (unwrap (btuuid.from_be_slice d) ≡ panic) ↔ (is_readable d ≡ false)
  unwrap_panics d = elim (Option-cases (btuuid.from_be_slice d)) [
    | inl e ↦ rw e (λ p. refl, λ p. refl)
    | inr (u, e) ↦ rw e (λ p. absurd (cc), λ p. absurd (cc))
  ]

  never : {A : Type 0} (a : A) → (done a ≡ panic) ↔ (true ≡ false)
  never a = (λ p. absurd (cc), λ p. absurd (cc))

  and_true :
      {A : Type 0} (m : Outcome A) (p : Bool)
      → ((m ≡ panic) ↔ ((p && true) ≡ false))
      → (m ≡ panic) ↔ (p ≡ false)
  and_true m true h = h
  and_true m false h = h

  uuids_in_panics :
      (items : Objects) → (uuids_in btuuid items ≡ panic) ↔ (all_readable items ≡ false)
  unfolding uuids_in
  uuids_in_panics Objects.nil = never []
  uuids_in_panics (Objects.cons (Object.uuid d) items) =
      bind_panics (unwrap (btuuid.from_be_slice d)) _ (is_readable d) (all_readable items)
        (unwrap_panics d)
        (λ u. and_true _ (all_readable items) (
          bind_panics (uuids_in btuuid items) _ (all_readable items) true (uuids_in_panics items)
            (λ r. never (u ∷ r))))
  uuids_in_panics (Objects.cons _ items) = uuids_in_panics items

  uuids_of_panics : (o : Option Object) → (uuids_of btuuid o ≡ panic) ↔ (items_readable o ≡ false)
  unfolding uuids_of
  uuids_of_panics (some (Object.array items)) = uuids_in_panics items
  uuids_of_panics _ = never []

  service_loop_panics :
      (entries : Entries) (res : List (BluetoothUuid × Bytes))
      → (service_loop btuuid entries res ≡ panic) ↔ (entries_readable entries ≡ false)
  unfolding service_loop
  service_loop_panics Entries.end res = never res
  service_loop_panics (Entries.entry (Object.uuid d) (Object.bytes val) rest) res =
      bind_panics (unwrap (btuuid.from_be_slice d)) _ (is_readable d) (entries_readable rest)
        (unwrap_panics d) (λ u. service_loop_panics rest (put u val res))
  service_loop_panics (Entries.entry _ _ rest) res = service_loop_panics rest res

  service_data_of_panics :
      (o : Option Object) → (service_data_of btuuid o ≡ panic) ↔ (data_readable o ≡ false)
  unfolding service_data_of
  service_data_of_panics (some (Object.dictionary entries)) = service_loop_panics entries []
  service_data_of_panics _ = never []

  -- Reading an advertisement panics exactly if the data of some `CBUUID` that it looks at cannot
  -- be read: one in the three arrays of service UUIDs, or one that is the key of bytes in the
  -- dictionary of service data.
  pub from_nsdictionary-eq-panic_iff :
      (adv : AdvDictionary)
      → (from_nsdictionary btuuid adv ≡ panic) ↔ (
          (data_readable (adv AdvKey.service_data)
            && (items_readable (adv AdvKey.service_uuids)
                && (items_readable (adv AdvKey.overflow_service_uuids)
                    && items_readable (adv AdvKey.solicited_service_uuids))))
          ≡ false)
  unfolding from_nsdictionary
  from_nsdictionary-eq-panic_iff adv =
      let found_in = adv AdvKey.service_data in
      let main = adv AdvKey.service_uuids in
      let over = adv AdvKey.overflow_service_uuids in
      let solicited = adv AdvKey.solicited_service_uuids in
      bind_panics (service_data_of btuuid found_in) _ (data_readable found_in) _
        (service_data_of_panics found_in)
        (λ found.
          bind_panics (uuids_of btuuid main) _ (items_readable main) _ (uuids_of_panics main) (λ a.
            bind_panics (uuids_of btuuid over) _ (items_readable over) _ (uuids_of_panics over)
              (λ b. and_true _ (items_readable solicited) (
                bind_panics (uuids_of btuuid solicited) _ (items_readable solicited) true
                  (uuids_of_panics solicited) (λ c. never _)))))

  -- The last entry of bytes under a key that reads as the UUID.
  abbrev pub last_value : BluetoothUuid → Entries → Option Bytes → Option Bytes
  last_value key Entries.end found = found
  last_value key (Entries.entry (Object.uuid d) (Object.bytes val) rest) found =
      last_value key rest (elim (btuuid.from_be_slice d) [
        | none ↦ found
        | some u ↦ ite (BluetoothUuid-discrete u key) (some val) found
      ])
  last_value key (Entries.entry _ _ rest) found = last_value key rest found

  service_loop-get :
      (key : BluetoothUuid) (entries : Entries) (res : List (BluetoothUuid × Bytes))
      → Ensures
          (λ m. get key m ≡ last_value key entries (get key res))
          (service_loop btuuid entries res)
  unfolding service_loop
  service_loop-get key Entries.end res = refl
  service_loop-get key (Entries.entry (Object.uuid d) (Object.bytes val) rest) res =
      elim (Option-cases (btuuid.from_be_slice d)) [
        | inl e ↦ rw e tt
        | inr (u, e) ↦
            rw (e) (rw⁻¹ (get-put u key val res) (service_loop-get key rest (put u val res)))
      ]
  service_loop-get key (Entries.entry _ _ rest) res = service_loop-get key rest res

  -- The service data of an advertisement that is read has, under each UUID, the bytes of the last
  -- entry of the dictionary whose key reads as that UUID, and nothing under any other UUID.
  pub service_data_lem :
      (key : BluetoothUuid) (entries : Entries) {m : List (BluetoothUuid × Bytes)}
      → service_data_of btuuid (some (Object.dictionary entries)) ≡ done m
      → get key m ≡ last_value key entries none
  unfolding service_data_of get
  service_data_lem key entries e =
      Ensures-done (λ m. get key m ≡ last_value key entries none) (service_loop btuuid entries [])
        (service_loop-get key entries []) e

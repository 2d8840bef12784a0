-- ===== src/Bluetooth/Sent.antt =====
-- What the messages of corebluetooth/src/central_manager.rs and of the discovery methods of
-- corebluetooth/src/peripheral.rs carry: the options by key, and UUIDs that are read back as
-- those asked for.
use mathlib.Core.Logic.{ite, if_pos}
use mathlib.Core.Option
use corebluetooth_rs.Prelude.{
  ℕ, Bool, true, false, Option, none, some, List, [], ◌∷◌, map, ◌≡◌, refl, ap, ◌∙◌, arith, All,
  if◌then◌else◌,
}
use mathlib.Core.Path.{ap₂}
use corebluetooth_rs.Prelude.Bytes.{Bytes, to_be_bytes}
use corebluetooth_rs.Bluetooth.Btuuid.{
  BluetoothUuid, Fits, BtuuidCrate, to_cbuuid, from_be_slice-to_cbuuid,
}
use corebluetooth_rs.Bluetooth.Central
use corebluetooth_rs.Bluetooth.Messages.{Message, Key, Key-discrete, Setting, Dictionary}
use corebluetooth_rs.Bluetooth.Options.{
  get, set_some, set_value, get-set_value, ConnectPeripheralOptions, then_true, to_dictionary,
}

get-set_some :
    (key j : Key) (value : Option Setting) (dict : Dictionary)
    → get j (set_some key value dict)
      ≡ (elim value [ none ↦ get j dict | some v ↦ ite (Key-discrete key j) (some v) (get j dict) ])
unfolding set_some
get-set_some key j none dict = refl
get-set_some key j (some v) dict = get-set_value key j v dict

-- What the options ask for under each key.
abbrev pub asked : ConnectPeripheralOptions → Key → Option Setting
asked o Key.enable_auto_reconnect = then_true o.enable_auto_reconnect
asked o Key.enable_transport_bridging = then_true o.enable_transport_bridging
asked o Key.notify_on_connection = then_true o.notify_on_connection
asked o Key.notify_on_disconnection = then_true o.notify_on_disconnection
asked o Key.notify_on_notification = then_true o.notify_on_notification
asked o Key.requires_ancs = then_true o.requires_ancs
asked o Key.start_delay = Option.map Setting.float o.start_delay
asked o _ = none

-- The dictionary sent for connection options has, under every key, what the options ask for:
-- `true` for a flag that is set, the delay if there is one, and nothing else.
pub get-to_dictionary :
    (o : ConnectPeripheralOptions) (key : Key) → get key (to_dictionary o) ≡ asked o key
unfolding get set_some set_value to_dictionary Key-discrete
get-to_dictionary o Key.enable_auto_reconnect = ground arith
get-to_dictionary o _ = ground arith

-- The UUIDs of a list of data objects, as a reader decodes them.
abbrev decode : BtuuidCrate → List Bytes → List (Option BluetoothUuid)
decode btuuid = map btuuid.from_be_slice

decode-to_cbuuid :
    (btuuid : BtuuidCrate) (uuids : List BluetoothUuid)
    → All Fits uuids
    → decode btuuid (map to_cbuuid uuids) ≡ map some uuids
decode-to_cbuuid btuuid [] h = refl
decode-to_cbuuid btuuid (u ∷ uuids) h =
    ap₂ ◌∷◌ (from_be_slice-to_cbuuid btuuid u h.0) (decode-to_cbuuid btuuid uuids h.1)

abbrev FitsAll : Option (List BluetoothUuid) → Type 0
FitsAll none = Unit
FitsAll (some uuids) = All Fits uuids

-- The services and the options that a scan message carries.
abbrev pub scanned : Message → Option (List Bytes)
scanned (Message.scan_for_peripherals services options) = services
scanned _ = none

abbrev pub options_of : Message → Dictionary
options_of (Message.scan_for_peripherals services options) = options
options_of (Message.register_for_connection_events options) = options
options_of (Message.init_manager options) = options
options_of _ = []

abbrev pub uuids_of : Option Setting → Option (List Bytes)
uuids_of (some (Setting.uuids l)) = some l
uuids_of _ = none

abbrev pub decode_option : BtuuidCrate → Option (List Bytes) → Option (List (Option BluetoothUuid))
decode_option btuuid = Option.map (decode btuuid)

decode_option-to_cbuuid :
    (btuuid : BtuuidCrate) (uuids : Option (List BluetoothUuid))
    → FitsAll uuids
    → decode_option btuuid (Option.map (map to_cbuuid) uuids) ≡ Option.map (map some) uuids
decode_option-to_cbuuid btuuid none h = refl
decode_option-to_cbuuid btuuid (some uuids) h = ap some (decode-to_cbuuid btuuid uuids h)

uuids_of-get_set :
    (key : Key) (uuids : Option (List BluetoothUuid)) (dict : Dictionary)
    → get key dict ≡ none
    → uuids_of
        (get key (set_some key (Option.map (λ l. Setting.uuids (map to_cbuuid l)) uuids) dict))
      ≡ Option.map (map to_cbuuid) uuids
unfolding set_some
uuids_of-get_set key none dict h = rw h
uuids_of-get_set key (some l) dict h = ap uuids_of (
    get-set_value key key (Setting.uuids (map to_cbuuid l)) dict
    ∙ if_pos (Key-discrete key key) refl _ _)

abbrev flags : Bool → Dictionary
flags duplicates =
    if duplicates then set_value Key.allow_duplicates (Setting.boolean duplicates) [] else []

flags_free : (duplicates : Bool) → get Key.solicited_service_uuids (flags duplicates) ≡ none
unfolding get set_value Key-discrete
flags_free true = refl
flags_free false = refl

allow :
    (duplicates : Bool) (solicited : Option (List BluetoothUuid))
    → get Key.allow_duplicates (
        set_some Key.solicited_service_uuids
          (Option.map (λ l. Setting.uuids (map to_cbuuid l)) solicited)
          (flags duplicates))
      ≡ (if duplicates then some (Setting.boolean true) else none)
unfolding get set_value set_some Key-discrete
allow true none = refl
allow true (some l) = refl
allow false none = refl
allow false (some l) = refl

-- A scan asks for the services given, read back UUID by UUID if their values fit their variants,
-- for duplicates exactly if they are allowed, and likewise for the solicited services given; a
-- list that is not given is not sent.
pub scan_lem :
    (btuuid : BtuuidCrate) (services : Option (List BluetoothUuid)) (duplicates : Bool)
    (solicited : Option (List BluetoothUuid))
    → FitsAll services
    → FitsAll solicited
    → let message = Central.scan services duplicates solicited in
      (decode_option btuuid (scanned message) ≡ Option.map (map some) services)
      × (get Key.allow_duplicates (options_of message)
          ≡ (if duplicates then some (Setting.boolean true) else none))
      × (decode_option btuuid (uuids_of (get Key.solicited_service_uuids (options_of message)))
          ≡ Option.map (map some) solicited)
unfolding Central.scan
scan_lem btuuid services duplicates solicited h k = (
  decode_option-to_cbuuid btuuid services h,
  allow duplicates solicited,
  ap (decode_option btuuid) (
        uuids_of-get_set Key.solicited_service_uuids solicited (flags duplicates)
          (flags_free duplicates))
      ∙ decode_option-to_cbuuid btuuid solicited k,
)

abbrev named : Option (List ℕ) → Dictionary
named peripherals =
    set_some Key.matching_peripheral_uuids
      (Option.map (λ ids. Setting.uuids (map (to_be_bytes 16) ids)) peripherals) []

named_free :
    (peripherals : Option (List ℕ)) → get Key.matching_service_uuids (named peripherals) ≡ none
unfolding get set_value set_some Key-discrete
named_free none = refl
named_free (some ids) = refl

named_lem :
    (peripherals : Option (List ℕ)) (services : Option (List BluetoothUuid))
    → uuids_of (
        get Key.matching_peripheral_uuids (
          set_some Key.matching_service_uuids
            (Option.map (λ l. Setting.uuids (map to_cbuuid l)) services)
            (named peripherals)))
      ≡ Option.map (map (to_be_bytes 16)) peripherals
unfolding get set_value set_some Key-discrete
named_lem none none = refl
named_lem none (some l) = refl
named_lem (some ids) none = refl
named_lem (some ids) (some l) = refl

-- Registering for connection events sends the services given, read back UUID by UUID if their
-- values fit their variants, and the sixteen bytes of each peripheral identifier given; a list
-- that is not given is not sent.
register_lem :
    (btuuid : BtuuidCrate) (peripherals : Option (List ℕ)) (services : Option (List BluetoothUuid))
    → FitsAll services
    → let options = options_of (Central.register_for_connection_events peripherals services) in
      (decode_option btuuid (uuids_of (get Key.matching_service_uuids options))
        ≡ Option.map (map some) services)
      × (uuids_of (get Key.matching_peripheral_uuids options)
          ≡ Option.map (map (to_be_bytes 16)) peripherals)
unfolding Central.register_for_connection_events
register_lem btuuid peripherals services h = (
  ap (decode_option btuuid) (
        uuids_of-get_set Key.matching_service_uuids services (named peripherals)
          (named_free peripherals))
      ∙ decode_option-to_cbuuid btuuid services h,
  named_lem peripherals services,
)

-- ===== src/Bluetooth/Options.antt =====
-- The option dictionaries of corebluetooth/src/central_manager.rs: `setValue_forKey` of an
-- `NSMutableDictionary`, and `ConnectPeripheralOptions` with its `to_dictionary`.
use mathlib.Core.Logic.{ite}
use mathlib.Core.Option
use corebluetooth_rs.Prelude.{ℕ, Bool, true, false, Option, none, some, [], ◌∷◌, ◌≡◌, refl}
use corebluetooth_rs.Bluetooth.Messages.{Key, Key-discrete, Setting, Dictionary}

-- What the calls leave under a key: the value of the latest call for it.
unfoldable pub get : Key → Dictionary → Option Setting
get key [] = none
get key ((k, v) ∷ dict) = ite (Key-discrete k key) (some v) (get key dict)

unfoldable pub set_value : Key → Setting → Dictionary → Dictionary
set_value key value dict = (key, value) ∷ dict

-- The inner function `set_value` of `to_dictionary`: no value, no change.
unfoldable pub set_some : Key → Option Setting → Dictionary → Dictionary
set_some key none dict = dict
set_some key (some value) dict = set_value key value dict

pub get-set_value :
    (key j : Key) (value : Setting) (dict : Dictionary)
    → get j (set_value key value dict) ≡ ite (Key-discrete key j) (some value) (get j dict)
unfolding get set_value
get-set_value key j value dict = refl

pub record ConnectPeripheralOptions : Type 0 where
  pub enable_auto_reconnect : Bool
  pub enable_transport_bridging : Bool
  pub notify_on_connection : Bool
  pub notify_on_disconnection : Bool
  pub notify_on_notification : Bool
  pub requires_ancs : Bool
  pub start_delay : Option ℕ

-- `Default::default()`
abbrev pub default_options : ConnectPeripheralOptions
default_options = record {
  enable_auto_reconnect = false;
  enable_transport_bridging = false;
  notify_on_connection = false;
  notify_on_disconnection = false;
  notify_on_notification = false;
  requires_ancs = false;
  start_delay = none;
}

-- `flag.then(|| NSNumber::new_bool(true))`
abbrev pub then_true : Bool → Option Setting
then_true true = some (Setting.boolean true)
then_true false = none

unfoldable pub to_dictionary : ConnectPeripheralOptions → Dictionary
to_dictionary o = set_some Key.start_delay (Option.map Setting.float o.start_delay) (
    set_some Key.requires_ancs (then_true o.requires_ancs) (
      set_some Key.notify_on_notification (then_true o.notify_on_notification) (
        set_some Key.notify_on_disconnection (then_true o.notify_on_disconnection) (
          set_some Key.notify_on_connection (then_true o.notify_on_connection) (
            set_some Key.enable_transport_bridging (then_true o.enable_transport_bridging)
              (set_some Key.enable_auto_reconnect (then_true o.enable_auto_reconnect) []))))))

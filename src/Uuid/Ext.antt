-- ===== src/Uuid/Ext.antt =====
-- corebluetooth/src/btuuid.rs: the Bluetooth base UUID, the two const functions and the methods
-- of `impl BluetoothUuidExt for Uuid`, over the `uuid` crate as a parameter.
use Prim.Native.Nat.{bit_and, bit_or}
use mathlib.Core.Option
use corebluetooth_rs.Prelude.{
  ℕ, ◌-◌, ◌*◌, ◌/◌, ◌%◌, ◌^◌, Bool, true, false, Option, none, some, Outcome, unwrap, length, take,
  drop, ltb, ◌==◌, if◌then◌else◌,
}
use corebluetooth_rs.Prelude.Bytes.{Bytes, from_be_bytes}
use corebluetooth_rs.Uuid.Crate.{UuidCrate}

abbrev pub bluetooth_base_uuid : ℕ
bluetooth_base_uuid = 0x00000000_0000_1000_8000_00805f9b34fb

-- `<<`, `>>` and `as u32` on u128 drop what does not fit.
abbrev pub shl96 : ℕ → ℕ
shl96 x = x * 2 ^ 96 % 2 ^ 128

abbrev shr96 : ℕ → ℕ
shr96 x = x / 2 ^ 96

abbrev as_u32 : ℕ → ℕ
as_u32 x = x % 2 ^ 32

-- `u16::try_from` of a u32, and `bytes.try_into()` for an array of `n` bytes.
abbrev u16_try_from : ℕ → Option ℕ
u16_try_from x = if ltb x (2 ^ 16) then some x else none

abbrev pub array_try_from : ℕ → Bytes → Option Bytes
array_try_from n bytes = if length bytes == n then some bytes else none

abbrev or_else {ℓ} : {A : Type ℓ} → Option A → Option A → Option A
or_else (some a) o = some a
or_else none o = o

abbrev pub is_some {ℓ} : {A : Type ℓ} → Option A → Bool
is_some (some a) = true
is_some none = false

abbrev then_some {ℓ} : {A : Type ℓ} → Bool → A → Option A
then_some true a = some a
then_some false a = none

module _ (crate : UuidCrate) where
  open crate use {Uuid, from_u128, as_u128, from_bytes, as_bytes}

  unfoldable pub bluetooth_uuid_from_u16 : ℕ → Uuid
  bluetooth_uuid_from_u16 uuid = from_u128 (bit_or (shl96 uuid) bluetooth_base_uuid)

  unfoldable pub bluetooth_uuid_from_u32 : ℕ → Uuid
  bluetooth_uuid_from_u32 uuid = from_u128 (bit_or (shl96 uuid) bluetooth_base_uuid)

  unfoldable pub from_u16 : ℕ → Uuid
  from_u16 uuid = bluetooth_uuid_from_u16 uuid

  unfoldable pub from_u32 : ℕ → Uuid
  from_u32 uuid = bluetooth_uuid_from_u32 uuid

  unfoldable pub from_bluetooth_bytes : Bytes → Outcome Uuid
  from_bluetooth_bytes bytes = unwrap (
      or_else
        (or_else (Option.map (λ x. from_u16 (from_be_bytes x)) (array_try_from 2 bytes))
          (Option.map (λ x. from_u32 (from_be_bytes x)) (array_try_from 4 bytes)))
        (Option.map from_bytes (array_try_from 16 bytes)))

  unfoldable pub is_u32_uuid : Uuid → Bool
  is_u32_uuid u = bit_and (as_u128 u) (2 ^ 96 - 1) == bluetooth_base_uuid

  unfoldable pub try_to_u32 : Uuid → Option ℕ
  try_to_u32 u = then_some (is_u32_uuid u) (as_u32 (shr96 (as_u128 u)))

  unfoldable pub try_to_u16 : Uuid → Option ℕ
  try_to_u16 u = Option.bind (try_to_u32 u) u16_try_from

  unfoldable pub is_u16_uuid : Uuid → Bool
  is_u16_uuid u = is_some (try_to_u16 u)

  -- The slices `bytes[2..4]`, `bytes[0..4]` and `bytes[..]` of the sixteen bytes.
  unfoldable pub as_bluetooth_bytes : Uuid → Bytes
  as_bluetooth_bytes u =
      if is_u16_uuid u
      then take 2 (drop 2 (as_bytes u))
      else if is_u32_uuid u
      then take 4 (as_bytes u)
      else as_bytes u

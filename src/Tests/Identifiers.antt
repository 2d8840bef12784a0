-- ===== src/Tests/Identifiers.antt =====
-- The theorems on Bluetooth UUIDs at concrete ones.
use mathlib.Core.Option
use corebluetooth_rs.Prelude.{
  ℕ, ◌^◌, ◌<◌, ◌≡◌, ◌≢◌, refl, ◌↔◌, [], ◌∷◌, done, panic, some, length, if◌then◌else◌,
}
use corebluetooth_rs.Tests.Crates.{Number128, uuid_crate}
use corebluetooth_rs.Uuid.Ext.{
  bluetooth_uuid_from_u16, from_u16, from_u32, try_to_u16, try_to_u32, from_bluetooth_bytes,
  as_bluetooth_bytes, is_u16_uuid, is_u32_uuid,
}
use corebluetooth_rs.Uuid.Octets.{
  from_bluetooth_bytes-as_bluetooth_bytes, from_bluetooth_bytes-eq-panic_iff,
  length-as_bluetooth_bytes,
}
use corebluetooth_rs.Uuid.Value.{try_to_u16-eq-some_iff, try_to_u32-eq-some_iff}

-- The heart rate service, and a UUID of 32 bits.
abbrev heart_rate : Number128
heart_rate = from_u16 uuid_crate 0x180d

abbrev wide : Number128
wide = from_u32 uuid_crate 0x12345678

heart_rate_octets : as_bluetooth_bytes uuid_crate heart_rate ≡ 0x18 ∷ 0x0d ∷ []
unfolding as_bluetooth_bytes is_u16_uuid try_to_u16 try_to_u32 is_u32_uuid from_u16
    bluetooth_uuid_from_u16 Option.bind
heart_rate_octets = refl

octets_back_example :
    from_bluetooth_bytes uuid_crate (as_bluetooth_bytes uuid_crate wide) ≡ done wide
octets_back_example = from_bluetooth_bytes-as_bluetooth_bytes uuid_crate wide

octets_panic_example : (from_bluetooth_bytes uuid_crate (1 ∷ 2 ∷ 3 ∷ []) ≡ panic) ↔ (
    (length {A = ℕ} (1 ∷ 2 ∷ 3 ∷ []) ≢ 2)
    × (length {A = ℕ} (1 ∷ 2 ∷ 3 ∷ []) ≢ 4)
    × (length {A = ℕ} (1 ∷ 2 ∷ 3 ∷ []) ≢ 16))
octets_panic_example = from_bluetooth_bytes-eq-panic_iff uuid_crate (1 ∷ 2 ∷ 3 ∷ [])

octets_length_example :
    length (as_bluetooth_bytes uuid_crate wide)
    ≡ (if is_u16_uuid uuid_crate wide then 2 else if is_u32_uuid uuid_crate wide then 4 else 16)
octets_length_example = length-as_bluetooth_bytes uuid_crate wide

try_to_u16_example :
    (try_to_u16 uuid_crate heart_rate ≡ some 0x180d)
    ↔ ((0x180d < 2 ^ 16) × (heart_rate ≡ from_u16 uuid_crate 0x180d))
try_to_u16_example = try_to_u16-eq-some_iff uuid_crate heart_rate 0x180d

try_to_u32_example :
    (try_to_u32 uuid_crate wide ≡ some 0x12345678)
    ↔ ((0x12345678 < 2 ^ 32) × (wide ≡ from_u32 uuid_crate 0x12345678))
try_to_u32_example = try_to_u32-eq-some_iff uuid_crate wide 0x12345678

-- ===== src/Uuid/Value.antt =====
-- What the methods of `BluetoothUuidExt` (corebluetooth/src/btuuid.rs) compute, and their round
-- trips.
use Prim.Native.Nat.{bit_or}
use mathlib.Core.Option
use mathlib.Core.Path.{ap₂}
use corebluetooth_rs.Prelude.{
  ℕ, ◌+◌, ◌*◌, ◌%◌, ◌^◌, ◌≤◌, ◌<◌, ◌≡◌, refl, sym, ap, ◌∙◌, ◌↔◌, inl, inr, true, false, some, arith,
  take, drop, [], ◌∷◌, ◌++◌, Option-cases,
}
use corebluetooth_rs.Prelude.Bytes.{Bytes, to_be_bytes}
use corebluetooth_rs.Uuid.Bits.{or-shifted, and-mask}
use corebluetooth_rs.Uuid.Crate.{UuidCrate}
use corebluetooth_rs.Uuid.Ext.{
  bluetooth_base_uuid, shl96, bluetooth_uuid_from_u16, bluetooth_uuid_from_u32, from_u16, from_u32,
  is_u32_uuid, try_to_u32, try_to_u16, is_u16_uuid, as_bluetooth_bytes,
}

-- The slices `[2..4]` and `[0..4]` of the octets of a value placed above the base UUID.
octets-two :
    (x : ℕ)
    → x < 2 ^ 16
    → take 2 (drop 2 (to_be_bytes 16 (x * 2 ^ 96 + bluetooth_base_uuid))) ≡ to_be_bytes 2 x
octets-two x h = ap₂ (λ a b. a ∷ b ∷ []) (omega arith) (omega arith)

octets-four :
    (x : ℕ)
    → x < 2 ^ 32
    → take 4 (to_be_bytes 16 (x * 2 ^ 96 + bluetooth_base_uuid)) ≡ to_be_bytes 4 x
octets-four x h =
    ap₂ (λ p q. p ++ q) (ap₂ {C = Bytes} (λ a b. a ∷ b ∷ []) (omega arith) (omega arith))
      (ap₂ (λ a b. a ∷ b ∷ []) (omega arith) (omega arith))

module _ (crate : UuidCrate) where
  open crate use {
    Uuid, from_u128, as_u128, from_bytes, as_bytes, as_u128_bound, as_u128-from_u128,
    from_u128-as_u128, as_bytes_be, from_bytes_be,
  }

  -- The base UUID leaves the upper 32 bits free.
  from_u32-value :
      (x : ℕ) → x < 2 ^ 32 → from_u32 crate x ≡ from_u128 (x * 2 ^ 96 + bluetooth_base_uuid)
  unfolding from_u32 bluetooth_uuid_from_u32
  from_u32-value x h =
      let fits : shl96 x ≡ x * 2 ^ 96 = omega arith in
      ap (λ t. from_u128 (bit_or t bluetooth_base_uuid)) fits
      ∙ ap from_u128 (or-shifted 96 x bluetooth_base_uuid (omega arith))

  pub from_u16-from_u32 : (x : ℕ) → from_u16 crate x ≡ from_u32 crate x
  unfolding from_u16 from_u32 bluetooth_uuid_from_u16 bluetooth_uuid_from_u32
  from_u16-from_u32 x = refl

  as_u128-from_u32 :
      (x : ℕ) → x < 2 ^ 32 → as_u128 (from_u32 crate x) ≡ x * 2 ^ 96 + bluetooth_base_uuid
  as_u128-from_u32 x h = ap as_u128 (from_u32-value x h) ∙ as_u128-from_u128 _ (omega arith)

  is_u32_uuid_iff :
      (u : Uuid) → (is_u32_uuid crate u ≡ true) ↔ (as_u128 u % 2 ^ 96 ≡ bluetooth_base_uuid)
  unfolding is_u32_uuid
  is_u32_uuid_iff u = ground (arith, and-mask 96 (as_u128 u))

  -- `try_to_u32` returns `x` exactly for the UUID that `from_u32` makes of the 32-bit value `x`.
  pub try_to_u32-eq-some_iff :
      (u : Uuid) (x : ℕ) → (try_to_u32 crate u ≡ some x) ↔ ((x < 2 ^ 32) × (u ≡ from_u32 crate x))
  unfolding try_to_u32
  try_to_u32-eq-some_iff u x = (to, from)
    where
      to : try_to_u32 crate u ≡ some x → (x < 2 ^ 32) × (u ≡ from_u32 crate x)
      to h =
          let fit : x < 2 ^ 32 = ground arith in
          let low : as_u128 u ≡ x * 2 ^ 96 + bluetooth_base_uuid =
            ground (arith, is_u32_uuid_iff u, as_u128_bound u) in
          (fit, sym (from_u128-as_u128 u) ∙ ap from_u128 low ∙ sym (from_u32-value x fit))

      from : (x < 2 ^ 32) × (u ≡ from_u32 crate x) → try_to_u32 crate u ≡ some x
      from (fit, e) =
          let v : as_u128 u ≡ x * 2 ^ 96 + bluetooth_base_uuid =
            ap as_u128 e ∙ as_u128-from_u32 x fit in
          ground (arith, is_u32_uuid_iff u)

  -- `try_to_u16` returns `x` exactly for the UUID that `from_u16` makes of the 16-bit value `x`.
  pub try_to_u16-eq-some_iff :
      (u : Uuid) (x : ℕ) → (try_to_u16 crate u ≡ some x) ↔ ((x < 2 ^ 16) × (u ≡ from_u16 crate x))
  unfolding try_to_u16 Option.bind
  try_to_u16-eq-some_iff u x = (to, from)
    where
      to : try_to_u16 crate u ≡ some x → (x < 2 ^ 16) × (u ≡ from_u16 crate x)
      to h = elim (Option-cases (try_to_u32 crate u)) [
        | inl e ↦ absurd (ground arith)
        | inr (y, e) ↦
            let small : y < 2 ^ 16 = ground arith in
            let same : y ≡ x = ground arith in
            (
              omega arith,
              ((try_to_u32-eq-some_iff u y).0 e).1
                  ∙ sym (from_u16-from_u32 y)
                  ∙ ap (from_u16 crate) same,
            )
      ]

      from : (x < 2 ^ 16) × (u ≡ from_u16 crate x) → try_to_u16 crate u ≡ some x
      from (fit, e) =
          let w : try_to_u32 crate u ≡ some x =
            (try_to_u32-eq-some_iff u x).1 (omega arith, e ∙ from_u16-from_u32 x) in
          rw w (ground arith)

  as_u128-from_u16 :
      (x : ℕ) → x < 2 ^ 16 → as_u128 (from_u16 crate x) ≡ x * 2 ^ 96 + bluetooth_base_uuid
  as_u128-from_u16 x h = ap as_u128 (from_u16-from_u32 x) ∙ as_u128-from_u32 x (omega arith)

  -- The octets of a 16-bit UUID are the two of its value.
  pub as_bluetooth_bytes-from_u16 :
      (x : ℕ) → x < 2 ^ 16 → as_bluetooth_bytes crate (from_u16 crate x) ≡ to_be_bytes 2 x
  unfolding as_bluetooth_bytes is_u16_uuid
  as_bluetooth_bytes-from_u16 x h =
      rw
        (
          (try_to_u16-eq-some_iff (from_u16 crate x) x).1 (h, refl),
          as_bytes_be,
          as_u128-from_u16 x h,
        )
        (octets-two x h)

  -- The octets of a 32-bit UUID whose value exceeds 16 bits are the four of its value.
  pub as_bluetooth_bytes-from_u32 :
      (x : ℕ)
      → 2 ^ 16 ≤ x
      → x < 2 ^ 32
      → as_bluetooth_bytes crate (from_u32 crate x) ≡ to_be_bytes 4 x
  unfolding as_bluetooth_bytes is_u16_uuid try_to_u16 try_to_u32 Option.bind
  as_bluetooth_bytes-from_u32 x lo hi =
      let long : is_u32_uuid crate (from_u32 crate x) ≡ true =
        (is_u32_uuid_iff (from_u32 crate x)).1 (omega (arith, as_u128-from_u32 x hi)) in
      rw (long, as_bytes_be, as_u128-from_u32 x hi) (ground (arith, octets-four x hi))

  -- Any other UUID has sixteen octets.
  pub as_bluetooth_bytes-other :
      (u : Uuid) → is_u32_uuid crate u ≡ false → as_bluetooth_bytes crate u ≡ as_bytes u
  unfolding as_bluetooth_bytes is_u16_uuid try_to_u16 try_to_u32 Option.bind
  as_bluetooth_bytes-other u h = rw h

-- ===== src/Uuid/Octets.antt =====
-- The octets of a Bluetooth UUID and back: `as_bluetooth_bytes` and `from_bluetooth_bytes` of
-- corebluetooth/src/btuuid.rs.
use native.Mathlib.Decide.{dec_lt}
use corebluetooth_rs.Prelude.{
  ℕ, ◌^◌, ◌≤◌, ◌<◌, ◌≡◌, ◌≢◌, refl, sym, ap, ◌∙◌, ◌↔◌, inl, inr, false, done, panic, arith, length,
  if◌then◌else◌, Option-cases,
}
use corebluetooth_rs.Prelude.Bytes.{
  Bytes, to_be_bytes, from_be_bytes-to_be_bytes, to_le_bytes, to_le_bytes-IsBytes, back-IsBytes,
}
use corebluetooth_rs.Uuid.Crate.{UuidCrate}
use corebluetooth_rs.Uuid.Ext.{
  from_u16, from_u32, from_bluetooth_bytes, is_u32_uuid, try_to_u32, is_u16_uuid,
  as_bluetooth_bytes,
}
use corebluetooth_rs.Uuid.Value.{
  try_to_u32-eq-some_iff, from_u16-from_u32, as_bluetooth_bytes-from_u16,
  as_bluetooth_bytes-from_u32, as_bluetooth_bytes-other,
}

-- The three shapes of a Bluetooth UUID.
pub data Shape (crate : UuidCrate) (u : UuidCrate.Uuid crate) : Type 0 where
  short : (x : ℕ) → x < 2 ^ 16 → u ≡ from_u16 crate x → Shape crate u
  medium : (x : ℕ) → 2 ^ 16 ≤ x → x < 2 ^ 32 → u ≡ from_u32 crate x → Shape crate u
  long : is_u32_uuid crate u ≡ false → Shape crate u

module _ (crate : UuidCrate) where
  open crate use {
    Uuid, as_u128, as_bytes, from_u128, from_bytes, as_u128_bound, from_u128-as_u128, as_bytes_be,
    from_bytes_be,
  }

  uuid-Shape : (u : Uuid) → Shape crate u
  unfolding try_to_u32
  uuid-Shape u = elim (Option-cases (try_to_u32 crate u)) [
    | inl e ↦ Shape.long (ground arith)
    | inr (x, e) ↦
        let (fit, made) = (try_to_u32-eq-some_iff crate u x).0 e in
        elim (dec_lt x (2 ^ 16)) [
          | yes small ↦ Shape.short x small (made ∙ sym (from_u16-from_u32 crate x))
          | no big ↦ Shape.medium x (omega arith) fit made
        ]
  ]

  from_two_bytes :
      (x : ℕ) → x < 2 ^ 16 → from_bluetooth_bytes crate (to_be_bytes 2 x) ≡ done (from_u16 crate x)
  unfolding from_bluetooth_bytes
  from_two_bytes x h = rw (from_be_bytes-to_be_bytes 2 x h)

  from_four_bytes :
      (x : ℕ) → x < 2 ^ 32 → from_bluetooth_bytes crate (to_be_bytes 4 x) ≡ done (from_u32 crate x)
  unfolding from_bluetooth_bytes
  from_four_bytes x h = rw (from_be_bytes-to_be_bytes 4 x h)

  from_sixteen_bytes : (u : Uuid) → from_bluetooth_bytes crate (as_bytes u) ≡ done u
  unfolding from_bluetooth_bytes
  from_sixteen_bytes u =
      let n = as_u128 u in
      let whole : from_bytes (to_be_bytes 16 n) ≡ u =
        from_bytes_be (to_be_bytes 16 n) refl
          (back-IsBytes (to_le_bytes 16 n) (to_le_bytes-IsBytes 16 n))
        ∙ ap from_u128 (from_be_bytes-to_be_bytes 16 n (as_u128_bound u))
        ∙ from_u128-as_u128 u in
      rw (as_bytes_be u) (ap done whole)

  from-Shape :
      (u : Uuid) → Shape crate u → from_bluetooth_bytes crate (as_bluetooth_bytes crate u) ≡ done u
  from-Shape u (Shape.short x h e) =
      rw (e, as_bluetooth_bytes-from_u16 crate x h) (from_two_bytes x h)
  from-Shape u (Shape.medium x lo hi e) =
      rw (e, as_bluetooth_bytes-from_u32 crate x lo hi) (from_four_bytes x hi)
  from-Shape u (Shape.long e) = rw (as_bluetooth_bytes-other crate u e) (from_sixteen_bytes u)

  -- Reading back the octets of a UUID gives that UUID, whatever its shape, and never panics.
  pub from_bluetooth_bytes-as_bluetooth_bytes :
      (u : Uuid) → from_bluetooth_bytes crate (as_bluetooth_bytes crate u) ≡ done u
  from_bluetooth_bytes-as_bluetooth_bytes u = from-Shape u (uuid-Shape u)

  -- `from_bluetooth_bytes` panics exactly when the number of bytes is not 2, 4 or 16.
  pub from_bluetooth_bytes-eq-panic_iff :
      (bytes : Bytes)
      → (from_bluetooth_bytes crate bytes ≡ panic)
        ↔ ((length bytes ≢ 2) × (length bytes ≢ 4) × (length bytes ≢ 16))
  unfolding from_bluetooth_bytes
  from_bluetooth_bytes-eq-panic_iff bytes = ground arith

  -- A UUID has 2 octets if `is_u16_uuid` holds, else 4 if `is_u32_uuid` does, else 16.
  pub length-as_bluetooth_bytes :
      (u : Uuid)
      → length (as_bluetooth_bytes crate u)
        ≡ (if is_u16_uuid crate u then 2 else if is_u32_uuid crate u then 4 else 16)
  unfolding as_bluetooth_bytes
  length-as_bluetooth_bytes u = rw (as_bytes_be u) (ground arith)

-- ===== src/Uuid/Crate.antt =====
-- The third-party `uuid` crate: its `Uuid` and the conversions that corebluetooth/src/btuuid.rs
-- calls, a parameter of the model. The laws are the crate's documented behaviour: a `Uuid` is a
-- 128-bit value, and its bytes are that value in big-endian order.
use corebluetooth_rs.Prelude.{ℕ, ◌^◌, ◌<◌, ◌≡◌, length}
use corebluetooth_rs.Prelude.Bytes.{Bytes, IsBytes, to_be_bytes, from_be_bytes}

pub record UuidCrate : Type 1 where
  pub Uuid : Type 0
  pub from_u128 : ℕ → Uuid
  pub as_u128 : Uuid → ℕ
  pub from_bytes : Bytes → Uuid
  pub as_bytes : Uuid → Bytes
  pub as_u128_bound : (u : Uuid) → as_u128 u < 2 ^ 128
  pub as_u128-from_u128 : (n : ℕ) → n < 2 ^ 128 → as_u128 (from_u128 n) ≡ n
  pub from_u128-as_u128 : (u : Uuid) → from_u128 (as_u128 u) ≡ u
  pub as_bytes_be : (u : Uuid) → as_bytes u ≡ to_be_bytes 16 (as_u128 u)
  pub from_bytes_be :
      (bs : Bytes) → length bs ≡ 16 → IsBytes bs → from_bytes bs ≡ from_u128 (from_be_bytes bs)

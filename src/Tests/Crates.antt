-- ===== src/Tests/Crates.antt =====
-- The third-party crates as concrete functions: `uuid`, by 128-bit numbers, `btuuid` and
-- `async_broadcast`.
use std.HLevel.{Σ_prop_path}
use corebluetooth_rs.Prelude.{
  ℕ, ◌%◌, ◌∙◌, List, [], ◌∷◌, Result, ok, ◌^◌, ◌≡◌, refl, ap, Option, none, some, length, ltb, true,
  ◌==◌, if◌then◌else◌, arith,
}
use corebluetooth_rs.Prelude.Bytes.{Bytes, to_be_bytes, from_be_bytes, from_be_bytes-to_be_bytes}
use corebluetooth_rs.Async.Broadcast.{BroadcastCrate, RecvError, sends, sent}
use corebluetooth_rs.Async.Crate.{Poll, pending, ready}
use corebluetooth_rs.Async.Trace.{Call}
use corebluetooth_rs.Bluetooth.Btuuid.{BluetoothUuid, BtuuidCrate}
use corebluetooth_rs.Error.Codes.{CbError, CbAttError, ErrorCodes}
use corebluetooth_rs.Error.Display.{Printer}
use corebluetooth_rs.Uuid.Crate.{UuidCrate}

abbrev pub Number128 : Type 0
Number128 = (n : ℕ) × (ltb n (2 ^ 128) ≡ true)

abbrev wrap : ℕ → Number128
wrap n = (n % 2 ^ 128, ground arith)

pub Number128-ext : (u v : Number128) → u.0 ≡ v.0 → u ≡ v
Number128-ext u v e = Σ_prop_path (λ n. hlevel) e

abbrev pub uuid_crate : UuidCrate
uuid_crate = record {
  Uuid = Number128;
  from_u128 = wrap;
  as_u128 = λ u. u.0;
  from_bytes = λ bs. wrap (from_be_bytes bs);
  as_bytes = λ u. to_be_bytes 16 u.0;
  as_u128_bound = λ u. ground (arith, u.1);
  as_u128-from_u128 = λ n h. omega arith;
  from_u128-as_u128 = λ u. Number128-ext (wrap u.0) u (ground (arith, u.1));
  as_bytes_be = λ u. refl;
  from_bytes_be = λ bs h k. refl;
}

abbrev read_be : Bytes → Option BluetoothUuid
read_be bytes =
    if length bytes == 2
    then some (BluetoothUuid.uuid16 (from_be_bytes bytes))
    else if length bytes == 4
    then some (BluetoothUuid.uuid32 (from_be_bytes bytes))
    else if length bytes == 16
    then some (BluetoothUuid.uuid128 (from_be_bytes bytes))
    else none

abbrev pub btuuid_crate : BtuuidCrate
btuuid_crate = record {
  from_be_slice = read_be;
  from_two = λ x h. ap (λ n. some (BluetoothUuid.uuid16 n)) (from_be_bytes-to_be_bytes 2 x h);
  from_four = λ x h. ap (λ n. some (BluetoothUuid.uuid32 n)) (from_be_bytes-to_be_bytes 4 x h);
  from_sixteen = λ x h. ap (λ n. some (BluetoothUuid.uuid128 n)) (from_be_bytes-to_be_bytes 16 x h);
  refused = λ bytes a b c. ground arith;
}

abbrev pub codes : ErrorCodes
codes = record { cb_error = λ n. CbError.unlisted n; cb_att_error = λ n. CbAttError.unlisted n }

abbrev pub printer : Printer
printer = record { with_code = λ text code. text; nserror = λ e. "error" }

-- A receiver of `async_broadcast` that gets the oldest message.
module _ {V : Type 0} where
  abbrev heard : ℕ → Call V → Poll (Result V RecvError)
  heard channel (Call.try_broadcast c v) = if c == channel then ready (ok v) else pending
  heard channel _ = pending

  abbrev older : Poll (Result V RecvError) → Poll (Result V RecvError) → Poll (Result V RecvError)
  older (ready r) now = ready r
  older pending now = now

  abbrev oldest : List (Call V) → ℕ → Poll (Result V RecvError)
  oldest [] channel = pending
  oldest (call ∷ calls) channel = older (oldest calls channel) (heard channel call)

  heard_none : (call : Call V) (channel : ℕ) → sends channel call ≡ 0 → heard channel call ≡ pending
  heard_none (Call.try_broadcast c v) channel h = ground arith
  heard_none _ channel h = refl

  pub oldest_none :
      (since : List (Call V)) (channel : ℕ)
      → sent channel since ≡ 0
      → oldest since channel ≡ pending
  oldest_none [] channel h = refl
  oldest_none (call ∷ calls) channel h =
      ap (λ p. older p (heard channel call)) (oldest_none calls channel (omega arith))
      ∙ heard_none call channel (omega arith)

  pub oldest_first :
      (since : List (Call V)) (channel : ℕ) (v : V)
      → sent channel since ≡ 0
      → oldest (Call.try_broadcast channel v ∷ since) channel ≡ ready (ok v)
  oldest_first since channel v h =
      ap (λ p. older p (heard channel (Call.try_broadcast channel v))) (oldest_none since channel h)
      ∙ here channel v
    where
      here : (n : ℕ) (v : V) → heard n (Call.try_broadcast n v) ≡ ready (ok v)
      here n v = ground arith

abbrev pub broadcast_crate : (V : Type 0) → BroadcastCrate V
broadcast_crate V = record { recv = oldest; recv_none = oldest_none; recv_first = oldest_first }

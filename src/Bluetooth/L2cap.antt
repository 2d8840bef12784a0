-- ===== src/Bluetooth/L2cap.antt =====
-- `L2capChannel::new` of corebluetooth/src/l2cap_channel.rs. The `UnixStream` that it makes is known
-- by its file descriptor. A stream is what `propertyForKey` gives for its native socket.
use corebluetooth_rs.Prelude.{
  ℕ, ◌≡◌, ◌≢◌, ◌↔◌, ◌⊎◌, inl, inr, Bool-cases, refl, ◌^◌, ◌<◌, Bool, true, false, ◌&&◌, Option,
  none, some, [], ◌∷◌, Outcome, done, panic, ◌>>=◌, unwrap, ◌==◌, length, arith, ◌-◌, if◌then◌else◌,
}
use corebluetooth_rs.Prelude.Bytes.{Bytes, to_le_bytes, from_le_bytes, from_le_bytes-to_le_bytes}
use corebluetooth_rs.Bluetooth.Foundation.{Object}
use corebluetooth_rs.Uuid.Ext.{array_try_from}

pub record CbStream : Type 0 where
  pub native_socket : Option Object

pub record CbChannel : Type 0 where
  pub identity : ℕ
  pub input_stream : Option CbStream
  pub output_stream : Option CbStream

abbrev eq_bytes : Bytes → Bytes → Bool
eq_bytes [] [] = true
eq_bytes (a ∷ l) (b ∷ m) = (a == b) && eq_bytes l m
eq_bytes _ _ = false

-- `assert_eq!`
abbrev assert : Bool → Outcome (Unit {0})
assert true = done tt
assert false = panic

abbrev downcast_data : Object → Option Bytes
downcast_data (Object.bytes bytes) = some bytes
downcast_data _ = none

-- The 32 bits of -1, the one file descriptor that cannot be owned.
abbrev pub no_fd : ℕ
no_fd = 2 ^ 32 - 1

-- `UnixStream::from_raw_fd` of the standard library, which panics on -1.
unfoldable from_raw_fd : ℕ → Outcome ℕ
from_raw_fd fd = if fd == no_fd then panic else done fd

-- The channel and the file descriptor of its stream, the 32 bits of an i32; `from_ne_bytes` is
-- little-endian on every processor that CoreBluetooth runs on.
unfoldable pub new : CbChannel → Outcome (ℕ × ℕ)
unfolding from_raw_fd
new channel = do
  input_stream ← unwrap channel.input_stream
  output_stream ← unwrap channel.output_stream
  input_property ← unwrap input_stream.native_socket
  output_property ← unwrap output_stream.native_socket
  input_native_socket ← unwrap (downcast_data input_property)
  output_native_socket ← unwrap (downcast_data output_property)
  _ ← assert (eq_bytes input_native_socket output_native_socket)
  bytes ← unwrap (array_try_from 4 input_native_socket)
  stream ← from_raw_fd (from_le_bytes bytes)
  done (channel.identity, stream)

eq_bytes_refl : (bytes : Bytes) → eq_bytes bytes bytes ≡ true
eq_bytes_refl [] = refl
eq_bytes_refl (b ∷ bytes) = ground (arith, eq_bytes_refl bytes)

eq_bytes_sound : (l m : Bytes) → eq_bytes l m ≡ true → l ≡ m
eq_bytes_sound [] [] h = refl
eq_bytes_sound [] (b ∷ m) h = absurd (ground arith)
eq_bytes_sound (a ∷ l) [] h = absurd (ground arith)
eq_bytes_sound (a ∷ l) (b ∷ m) h = ground (arith, eq_bytes_sound l m)

-- A stream with a native socket of these bytes.
abbrev socket : Bytes → Option CbStream
socket bytes = some (record { native_socket = some (Object.bytes bytes) })

abbrev pub channel_of : ℕ → Bytes → Bytes → CbChannel
channel_of identity input output = record {
  identity = identity;
  input_stream = socket input;
  output_stream = socket output;
}

-- A channel both of whose streams give the four bytes of a 32-bit file descriptor, the lowest
-- first, is opened on that file descriptor, unless it is -1.
pub new_lem :
    (identity fd : ℕ)
    → fd < no_fd
    → new (channel_of identity (to_le_bytes 4 fd) (to_le_bytes 4 fd)) ≡ done (identity, fd)
unfolding new from_raw_fd
new_lem identity fd h =
    rw (eq_bytes_refl (to_le_bytes 4 fd), from_le_bytes-to_le_bytes 4 fd (omega arith), differs)
      refl
  where
    differs : (fd == no_fd) ≡ false
    differs = ground arith

-- A channel whose streams give bytes panics exactly if they give different bytes, or not four, or
-- those of the file descriptor -1.
pub new-eq-panic_iff :
    (identity : ℕ) (input output : Bytes)
    → (new (channel_of identity input output) ≡ panic)
      ↔ ((input ≢ output) ⊎ ((length input ≢ 4) ⊎ (from_le_bytes input ≡ no_fd)))
unfolding new from_raw_fd
new-eq-panic_iff identity input output = elim (Bool-cases (eq_bytes input output)) [
  | inl e ↦ elim (Bool-cases (length input == 4)) [
    | inl f ↦ elim (Bool-cases (from_le_bytes input == no_fd)) [
      | inl g ↦ rw (e, f, g) (λ p. inr (inr (ground arith)), λ h. refl)
      | inr g ↦
          rw (e, f, g)
            (
              λ p. absurd (cc),
              λ h. elim h [
                | inl differ ↦ absurd (differ (eq_bytes_sound input output e))
                | inr (inl wrong) ↦ absurd (ground arith)
                | inr (inr none_left) ↦ absurd (ground arith)
              ],
            )
    ]
    | inr f ↦ rw (e, f) (λ p. inr (inl (ground arith)), λ h. refl)
  ]
  | inr e ↦ rw e (λ p. inl (λ same. absurd (cc (same, eq_bytes_refl input))), λ h. refl)
]

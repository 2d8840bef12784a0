-- ===== src/Uuid/Bits.antt =====
-- `|` of a shifted value with a word below the shift, `&` with a low mask: the operations of
-- `BluetoothUuidExt` on the 128-bit value, as arithmetic, for every shift.
use Prim.Native.Nat.{min, max, bit_and, bit_or, digits, bit_and-bitwise, bit_or-bitwise}
use native.Mathlib.Nat.{pow-suc, one-le-pow}
use corebluetooth_rs.Prelude.{
  ℕ, zero, suc, ◌+◌, ◌-◌, ◌*◌, ◌/◌, ◌%◌, ◌^◌, ◌≤◌, ◌<◌, ◌≡◌, refl, ap, arith,
}

-- The definitions that the native operations stand for run over the binary digits with `n` for fuel.
abbrev or_run : ℕ → ℕ → ℕ → ℕ
or_run n a b = digits (λ b. b) max n a b

abbrev and_run : ℕ → ℕ → ℕ → ℕ
and_run n a b = digits (λ b. zero) min n a b

or_run_fuel : (n m a b : ℕ) → a ≤ n → a ≤ m → or_run n a b ≡ or_run m a b
or_run_fuel zero zero a b p q = refl
or_run_fuel zero (suc m) zero b p q = refl
or_run_fuel (suc n) zero zero b p q = refl
or_run_fuel (suc n) (suc m) zero b p q = refl
or_run_fuel (suc n) (suc m) (suc a) b p q =
    omega (arith, or_run_fuel n m (suc a / 2) (b / 2) (omega arith) (omega arith))
or_run_fuel _ _ _ _ p q = absurd (omega arith)

and_run_fuel : (n m a b : ℕ) → a ≤ n → a ≤ m → and_run n a b ≡ and_run m a b
and_run_fuel zero zero a b p q = refl
and_run_fuel zero (suc m) zero b p q = refl
and_run_fuel (suc n) zero zero b p q = refl
and_run_fuel (suc n) (suc m) zero b p q = refl
and_run_fuel (suc n) (suc m) (suc a) b p q =
    omega (arith, and_run_fuel n m (suc a / 2) (b / 2) (omega arith) (omega arith))
and_run_fuel _ _ _ _ p q = absurd (omega arith)

zero-or : (b : ℕ) → bit_or 0 b ≡ b
zero-or b = bit_or-bitwise 0 b

zero-and : (b : ℕ) → bit_and 0 b ≡ 0
zero-and b = bit_and-bitwise 0 b

or_digit : (a b : ℕ) → bit_or a b ≡ bit_or (a / 2) (b / 2) * 2 + max (a % 2) (b % 2)
or_digit zero b = omega (arith, zero-or b, zero-or (b / 2))
or_digit (suc a) b = omega (
  arith,
  bit_or-bitwise (suc a) b,
  bit_or-bitwise (suc a / 2) (b / 2),
  or_run_fuel a (suc a / 2) (suc a / 2) (b / 2) (omega arith) (omega arith),
)

and_digit : (a b : ℕ) → bit_and a b ≡ bit_and (a / 2) (b / 2) * 2 + min (a % 2) (b % 2)
and_digit zero b = omega (arith, zero-and b, zero-and (b / 2))
and_digit (suc a) b = omega (
  arith,
  bit_and-bitwise (suc a) b,
  bit_and-bitwise (suc a / 2) (b / 2),
  and_run_fuel a (suc a / 2) (suc a / 2) (b / 2) (omega arith) (omega arith),
)

or-zero_below : (n a : ℕ) → a ≤ n → bit_or a 0 ≡ a
or-zero_below n zero h = refl
or-zero_below zero (suc a) h = absurd (omega arith)
or-zero_below (suc n) (suc a) h =
    omega (arith, or_digit (suc a) 0, or-zero_below n (suc a / 2) (omega arith))

and-zero_below : (n a : ℕ) → a ≤ n → bit_and a 0 ≡ 0
and-zero_below n zero h = refl
and-zero_below zero (suc a) h = absurd (omega arith)
and-zero_below (suc n) (suc a) h =
    omega (arith, and_digit (suc a) 0, and-zero_below n (suc a / 2) (omega arith))

double_shift : (q k : ℕ) → q * 2 ^ suc k ≡ q * 2 ^ k * 2
double_shift q k = omega (arith, ap (λ (t : ℕ). q * t) (pow-suc 2 k))

-- A value shifted by `k` and one that fits `k` bits have no bit in common.
pub or-shifted : (k q r : ℕ) → r < 2 ^ k → bit_or (q * 2 ^ k) r ≡ q * 2 ^ k + r
or-shifted zero q r h = ground (arith, or-zero_below q q (omega arith))
or-shifted (suc k) q r h = ground (
  arith,
  double_shift q k,
  pow-suc 2 k,
  or_digit (q * 2 ^ suc k) r,
  or-shifted k q (r / 2) (omega (arith, pow-suc 2 k)),
)

and-low_mask : (k q r : ℕ) → r < 2 ^ k → bit_and (q * 2 ^ k + r) (2 ^ k - 1) ≡ r
and-low_mask zero q r h = ground (arith, and-zero_below (q + r) (q + r) (omega arith))
and-low_mask (suc k) q r h = ground (
  arith,
  double_shift q k,
  pow-suc 2 k,
  and_digit (q * 2 ^ suc k + r) (2 ^ suc k - 1),
  and-low_mask k q (r / 2) (omega (arith, pow-suc 2 k)),
)

-- A mask of the `k` low bits is the remainder by `2 ^ k`.
pub and-mask : (k a : ℕ) → bit_and a (2 ^ k - 1) ≡ a % 2 ^ k
and-mask k a = ground (arith, one-le-pow k 2, and-low_mask k (a / 2 ^ k) (a % 2 ^ k))

-- ===== src/Prelude/Bytes.antt =====
-- Byte strings as lists of numbers, and the fixed-width conversions of the standard library,
-- `to_le_bytes`, `to_be_bytes`, `from_le_bytes` and `from_be_bytes`, at a width of `w` bytes.
use Prim.Native.Nat.{ℕ, zero, suc, ◌+◌, ◌*◌, ◌/◌, ◌%◌, ◌^◌, ◌<◌}
use mathlib.Core.Path.{◌≡◌, refl, ap, ◌∙◌}
use mathlib.Core.List.{List, [], ◌∷◌, ◌++◌}
use native.Mathlib.Nat.{pow-suc}
use native.Mathlib.Omega.{arith}
use corebluetooth_rs.Prelude.Lists.{All}

abbrev pub Bytes : Type 0
Bytes = List ℕ

abbrev pub IsBytes : Bytes → Type 0
IsBytes = All (λ b. b < 256)

abbrev pub to_le_bytes : ℕ → ℕ → Bytes
to_le_bytes zero n = []
to_le_bytes (suc w) n = n % 256 ∷ to_le_bytes w (n / 256)

abbrev pub from_le_bytes : Bytes → ℕ
from_le_bytes [] = 0
from_le_bytes (b ∷ bs) = b + 256 * from_le_bytes bs

-- `<[u8]>::reverse`
abbrev pub back : Bytes → Bytes
back [] = []
back (b ∷ bs) = back bs ++ b ∷ []

abbrev pub to_be_bytes : ℕ → ℕ → Bytes
to_be_bytes w n = back (to_le_bytes w n)

abbrev pub from_be_bytes : Bytes → ℕ
from_be_bytes bs = from_le_bytes (back bs)

back-append_last : (bs : Bytes) (b : ℕ) → back (bs ++ b ∷ []) ≡ b ∷ back bs
back-append_last [] b = refl
back-append_last (c ∷ bs) b = ap (λ r. r ++ c ∷ []) (back-append_last bs b)

back-back : (bs : Bytes) → back (back bs) ≡ bs
back-back [] = refl
back-back (b ∷ bs) = back-append_last (back bs) b ∙ ap (◌∷◌ b) (back-back bs)

-- A number that fits the width is read back.
pub from_le_bytes-to_le_bytes : (w n : ℕ) → n < 256 ^ w → from_le_bytes (to_le_bytes w n) ≡ n
from_le_bytes-to_le_bytes zero n h = omega arith
from_le_bytes-to_le_bytes (suc w) n h =
    omega
      (arith, pow-suc 256 w, from_le_bytes-to_le_bytes w (n / 256) (omega (arith, pow-suc 256 w)))

pub from_be_bytes-to_be_bytes : (w n : ℕ) → n < 256 ^ w → from_be_bytes (to_be_bytes w n) ≡ n
from_be_bytes-to_be_bytes w n h =
    ap from_le_bytes (back-back (to_le_bytes w n)) ∙ from_le_bytes-to_le_bytes w n h

pub to_le_bytes-IsBytes : (w n : ℕ) → IsBytes (to_le_bytes w n)
to_le_bytes-IsBytes zero n = tt
to_le_bytes-IsBytes (suc w) n = (omega arith, to_le_bytes-IsBytes w (n / 256))

IsBytes-append : (bs cs : Bytes) → IsBytes bs → IsBytes cs → IsBytes (bs ++ cs)
IsBytes-append [] cs p q = q
IsBytes-append (b ∷ bs) cs p q = (p.0, IsBytes-append bs cs p.1 q)

pub back-IsBytes : (bs : Bytes) → IsBytes bs → IsBytes (back bs)
back-IsBytes [] p = tt
back-IsBytes (b ∷ bs) p = IsBytes-append (back bs) (b ∷ []) (back-IsBytes bs p.1) (p.0, tt)

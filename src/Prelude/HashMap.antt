-- ===== src/Prelude/HashMap.antt =====
-- `std::collections::HashMap` over keys that are numbers (the identities of objects, or the value
-- of a `Uuid`), as a list of entries. `insert` and `remove` also return the value that was there,
-- which is what `get` gives before the call.
use Prim.Native.Nat.{ℕ, ◌+◌, ◌<◌}
use mathlib.Core.Path.{◌≡◌, refl, ◌∙◌}
use mathlib.Core.Logic.{◌≢◌, inl, inr}
use mathlib.Core.Bool.{false}
use mathlib.Core.Option.{Option, none, some}
use mathlib.Core.List.{List, [], ◌∷◌}
use native.Mathlib.Omega.{arith}
use corebluetooth_rs.Prelude.Tests.{◌==◌, if◌then◌else◌, Bool-cases}

abbrev pub HashMap {ℓ} : Type ℓ → Type ℓ
HashMap V = List (ℕ × V)

module _ {ℓ} {V : Type ℓ} where
  unfoldable pub get : ℕ → HashMap V → Option V
  get key [] = none
  get key ((k, v) ∷ m) = if k == key then some v else get key m

  unfoldable pub insert : ℕ → V → HashMap V → HashMap V
  insert key value [] = (key, value) ∷ []
  insert key value ((k, v) ∷ m) = if k == key then (key, value) ∷ m else (k, v) ∷ insert key value m

  unfoldable pub remove : ℕ → HashMap V → HashMap V
  remove key [] = []
  remove key ((k, v) ∷ m) = if k == key then m else (k, v) ∷ remove key m

  pub get-insert :
      (key j : ℕ) (value : V) (m : HashMap V)
      → get j (insert key value m) ≡ (if key == j then some value else get j m)
  unfolding get insert
  get-insert key j value [] = refl
  get-insert key j value ((k, v) ∷ m) = ground (arith, get-insert key j value m)

  pub get-remove_ne : (key j : ℕ) (m : HashMap V) → key ≢ j → get j (remove key m) ≡ get j m
  unfolding get remove
  get-remove_ne key j [] h = refl
  get-remove_ne key j ((k, v) ∷ m) h = ground (arith, get-remove_ne key j m)

  -- No key has two entries.
  abbrev pub Unique : HashMap V → Type ℓ
  Unique [] = Unit
  Unique ((k, v) ∷ m) = (get k m ≡ none) × Unique m

  pub remove_absent : (key : ℕ) (m : HashMap V) → get key m ≡ none → remove key m ≡ m
  unfolding get remove
  remove_absent key [] h = refl
  remove_absent key ((k, v) ∷ m) h = ground (arith, remove_absent key m)

  pub get-remove :
      (key j : ℕ) (m : HashMap V)
      → Unique m
      → get j (remove key m) ≡ (if key == j then none else get j m)
  unfolding get remove
  get-remove key j [] h = ground arith
  get-remove key j ((k, v) ∷ m) h = ground (arith, get-remove key j m h.1, h.0)

  pub Unique-insert : (key : ℕ) (value : V) (m : HashMap V) → Unique m → Unique (insert key value m)
  unfolding get insert
  Unique-insert key value [] h = (refl, tt)
  Unique-insert key value ((k, v) ∷ m) h = elim (Bool-cases (k == key)) [
    | inl e ↦ rw e (ground (arith, h.0), h.1)
    | inr e ↦ rw e (ground (arith, h.0, get-insert key k value m), Unique-insert key value m h.1)
  ]

  pub Unique-remove : (key : ℕ) (m : HashMap V) → Unique m → Unique (remove key m)
  unfolding get remove
  Unique-remove key [] h = tt
  Unique-remove key ((k, v) ∷ m) h = elim (Bool-cases (k == key)) [
    | inl e ↦ rw e h.1
    | inr e ↦ rw e (get-remove_ne key k m (differ e) ∙ h.0, Unique-remove key m h.1)
  ]
    where
      differ : (k == key) ≡ false → key ≢ k
      differ e = ground arith

-- How many entries hold the value `id`, and whether an optional value is `id`, as 0 or 1.
abbrev pub is_id : ℕ → ℕ → ℕ
is_id s id = if s == id then 1 else 0

abbrev pub held_by : ℕ → Option ℕ → ℕ
held_by id none = 0
held_by id (some s) = is_id s id

unfoldable pub held : ℕ → HashMap ℕ → ℕ
held id [] = 0
held id ((k, s) ∷ m) = is_id s id + held id m

pub held-insert :
    (id key s : ℕ) (m : HashMap ℕ)
    → held id (insert key s m) + held_by id (get key m) ≡ held id m + is_id s id
unfolding held get insert
held-insert id key s [] = ground arith
held-insert id key s ((k, v) ∷ m) = ground (arith, held-insert id key s m)

pub held-remove :
    (id key : ℕ) (m : HashMap ℕ) → held id (remove key m) + held_by id (get key m) ≡ held id m
unfolding held get remove
held-remove id key [] = ground arith
held-remove id key ((k, v) ∷ m) = ground (arith, held-remove id key m)

-- A value that an entry gives is held.
pub get-held : (id key : ℕ) (m : HashMap ℕ) → get key m ≡ some id → 0 < held id m
unfolding held get
get-held id key [] h = absurd (ground arith)
get-held id key ((k, v) ∷ m) h = ground (arith, get-held id key m)

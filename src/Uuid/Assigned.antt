-- ===== src/Uuid/Assigned.antt =====
-- The constants of the modules `services`, `characteristics` and `descriptors` of
-- corebluetooth/src/btuuid.rs: tables of names and assigned numbers, and the UUIDs that
-- `bluetooth_uuid_from_u16` makes of them.
mod Services
mod Descriptors
mod Device
mod Fitness
mod Electric
mod Audio
use Services.{services}
use Descriptors.{descriptors}
use Device.{characteristics_device}
use Fitness.{characteristics_fitness}
use Electric.{characteristics_electric}
use Audio.{characteristics_audio}
use Prim.Native.String.{String}
use corebluetooth_rs.Prelude.{
  ℕ, zero, suc, ◌+◌, ◌*◌, ◌^◌, ◌≤◌, ◌<◌, ◌≡◌, ◌≢◌, refl, ap, sym, ◌∙◌, Bool, true, false, ◌&&◌,
  List, [], ◌∷◌, ◌++◌, map, All, ltb, arith, some, none,
}
use corebluetooth_rs.Uuid.Crate.{UuidCrate}
use corebluetooth_rs.Uuid.Ext.{bluetooth_uuid_from_u16, from_u16, try_to_u16, try_to_u32}
use corebluetooth_rs.Uuid.Value.{try_to_u16-eq-some_iff}

abbrev pub constants : List (String × ℕ)
constants =
    services
    ++ (descriptors
        ++ (characteristics_device
            ++ (characteristics_fitness ++ (characteristics_electric ++ characteristics_audio))))

-- The constants as UUIDs.
unfoldable pub uuids : (crate : UuidCrate) → List (String × ℕ) → List (UuidCrate.Uuid crate)
uuids crate [] = []
uuids crate ((name, number) ∷ l) = bluetooth_uuid_from_u16 crate number ∷ uuids crate l

abbrev pub Distinct {ℓ} : {A : Type ℓ} → List A → Type ℓ
Distinct [] = Unit
Distinct (x ∷ xs) = All (λ y. x ≢ y) xs × Distinct xs

ascending : ℕ → List (String × ℕ) → Bool
ascending low [] = ltb low (2 ^ 16)
ascending low ((name, number) ∷ l) = ltb low number && ascending number l

constants-ascending : ascending 0 constants ≡ true
unfolding ascending
constants-ascending = refl

abbrev l2cappsm_number : ℕ
l2cappsm_number = 0xABDD3056_28FA_441D_A470_55A75A52553A

-- `L2CAPPSM_CHARACTERISTIC` of the module `descriptors`, the one constant with all its 128 bits.
unfoldable l2cappsm_characteristic : (crate : UuidCrate) → UuidCrate.Uuid crate
l2cappsm_characteristic crate = UuidCrate.from_u128 crate l2cappsm_number

module _ (crate : UuidCrate) where
  try_to_u16-constant :
      (x : ℕ) → x < 2 ^ 16 → try_to_u16 crate (bluetooth_uuid_from_u16 crate x) ≡ some x
  unfolding from_u16
  try_to_u16-constant x h = (try_to_u16-eq-some_iff crate _ x).1 (h, refl)

  constant_injective :
      (x y : ℕ)
      → x < y
      → y < 2 ^ 16
      → bluetooth_uuid_from_u16 crate x ≢ bluetooth_uuid_from_u16 crate y
  constant_injective x y lt h e =
      let same : some x ≡ some y =
        sym (try_to_u16-constant x (omega arith))
        ∙ ap (try_to_u16 crate) e
        ∙ try_to_u16-constant y h in
      absurd (ground arith)

  ascending-above : (low : ℕ) (l : List (String × ℕ)) → ascending low l ≡ true → low < 2 ^ 16
  unfolding ascending
  ascending-above low [] h = ground arith
  ascending-above low ((name, number) ∷ l) h = ground (arith, ascending-above number l)

  ascending-All_ne :
      (x low : ℕ) (l : List (String × ℕ))
      → x ≤ low
      → ascending low l ≡ true
      → All (λ u. bluetooth_uuid_from_u16 crate x ≢ u) (uuids crate l)
  unfolding ascending uuids
  ascending-All_ne x low [] le h = tt
  ascending-All_ne x low ((name, number) ∷ l) le h =
      let later : ascending number l ≡ true = ground arith in
      (
        constant_injective x number (ground arith) (ascending-above number l later),
        ascending-All_ne x number l (ground arith) later,
      )

  ascending-Distinct :
      (low : ℕ) (l : List (String × ℕ)) → ascending low l ≡ true → Distinct (uuids crate l)
  unfolding ascending uuids
  ascending-Distinct low [] h = tt
  ascending-Distinct low ((name, number) ∷ l) h =
      let later : ascending number l ≡ true = ground arith in
      (ascending-All_ne number number l (omega arith) later, ascending-Distinct number l later)

  -- No two of the constants of `services`, `descriptors` and `characteristics` made by
  -- `bluetooth_uuid_from_u16` are the same UUID.
  pub constants-Distinct : Distinct (uuids crate constants)
  constants-Distinct = ascending-Distinct 0 constants constants-ascending

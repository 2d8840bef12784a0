-- ===== src/Bluetooth/Retrieved.antt =====
-- What `CentralManager` (corebluetooth/src/central_manager.rs) promises of its closures and of the
-- peripherals that it retrieves.
use corebluetooth_rs.Prelude.{
  ℕ, ◌+◌, ◌≡◌, refl, sym, ap, ◌∙◌, ◌⊎◌, none, some, List, [], ◌∷◌, map, done, Option-cases, inl,
  inr, arith,
}
use corebluetooth_rs.Prelude.Bytes.{to_be_bytes}
use corebluetooth_rs.Bluetooth.Bridge.{Delegates, Peripheral, bridge_of, init, new}
use corebluetooth_rs.Bluetooth.Bridged.{init-bridge_of, init_keeps}
use corebluetooth_rs.Bluetooth.Manager
use corebluetooth_rs.Bluetooth.Manager.{init_all, Retrieval, retrieve_peripherals}

all_keep :
    (l : List ℕ) (q fresh b : ℕ) (s : Delegates)
    → bridge_of q s ≡ some b
    → bridge_of q (init_all l fresh s).0 ≡ some b
unfolding init_all
all_keep [] q fresh b s h = h
all_keep (p ∷ l) q fresh b s h =
    all_keep l q (fresh + 1) b (init p fresh s).0 (init_keeps p q fresh b s h)

-- Every peripheral of the list is wrapped with the delegate that the table has for it.
abbrev pub Wrapped : Delegates → List Peripheral → Type 0
Wrapped s [] = Unit
Wrapped s (w ∷ l) = (new w.peripheral s ≡ done w) × Wrapped s l

new_known :
    (w : Peripheral) (s : Delegates)
    → bridge_of w.peripheral s ≡ some w.delegate
    → new w.peripheral s ≡ done w
unfolding new
new_known w s h = rw h refl

init_all-Wrapped :
    (l : List ℕ) (fresh : ℕ) (s : Delegates)
    → (map (λ w. w.peripheral) (init_all l fresh s).1 ≡ l)
      × Wrapped (init_all l fresh s).0 (init_all l fresh s).1
unfolding init_all init
init_all-Wrapped [] fresh s = (refl, tt)
init_all-Wrapped (p ∷ l) fresh s =
    let (same, rest) = init_all-Wrapped l (fresh + 1) (init p fresh s).0 in
    (
      ap (λ l. p ∷ l) same,
      (
        new_known (init p fresh s).1 (init_all (p ∷ l) fresh s).0 (
            all_keep l p (fresh + 1) (init p fresh s).1.delegate (init p fresh s).0
              (init-bridge_of p p fresh s ∙ ground arith)),
        rest,
      ),
    )

-- `retrieve_peripherals` gives the peripherals that CoreBluetooth returns for the identifiers, in
-- its order, each with the delegate of which its callbacks are told from then on; a peripheral that
-- had a delegate keeps it.
pub retrieve_peripherals_lem :
    (central : Retrieval) (identifiers : List ℕ) (fresh : ℕ) (s : Delegates) (q : ℕ)
    → let (s', l) = retrieve_peripherals central identifiers fresh s in
      (map (λ w. w.peripheral) l ≡ central.with_identifiers (map (to_be_bytes 16) identifiers))
      × Wrapped s' l
      × ((bridge_of q s ≡ none) ⊎ (bridge_of q s' ≡ bridge_of q s))
unfolding retrieve_peripherals Manager.retrieve_identifiers
retrieve_peripherals_lem central identifiers fresh s q =
    let l = central.with_identifiers (map (to_be_bytes 16) identifiers) in
    let (same, wrapped) = init_all-Wrapped l fresh s in
    (
      same,
      wrapped,
      elim (Option-cases (bridge_of q s)) [
        | inl e ↦ inl e
        | inr (b, e) ↦ inr (all_keep l q fresh b s e ∙ sym e)
      ],
    )

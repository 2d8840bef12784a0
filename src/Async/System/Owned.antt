-- ===== src/Async/System/Owned.antt =====
-- Which delegate belongs to which peripheral (`Peripheral::init` of corebluetooth/src/peripheral.rs
-- with the delegates of corebluetooth-async/src/peripheral.rs): no two peripherals share a bridge,
-- and every bridge has its delegate.
use corebluetooth_rs.Prelude.{
  ℕ, ◌+◌, ◌<◌, ◌≡◌, ◌≢◌, ◌⊎◌, refl, sym, ap, ◌∙◌, Option, none, some, Option-cases, Bool-cases, inl,
  inr, ◌==◌, if◌then◌else◌, arith, true, false,
}
use corebluetooth_rs.Prelude.HashMap.{HashMap, get, insert, get-insert}
use corebluetooth_rs.Async.Peripheral.State.{State, default}

-- The bridges by peripheral, the delegates by bridge, and the number of the next bridge.
pub record IsOwned (bridge : ℕ → Option ℕ) (delegates : HashMap State) (next : ℕ) : Type 0 where
  pub old : (p b : ℕ) → bridge p ≡ some b → b < next
  pub apart : (p q b : ℕ) → bridge p ≡ some b → bridge q ≡ some b → p ≡ q
  pub present : (p b : ℕ) → bridge p ≡ some b → (s : State) × (get b delegates ≡ some s)

abbrev pub found : Option State → State
found (some s) = s
found none = default

-- The state of a peripheral's delegate: one that it has no delegate for yet will be in that of a
-- new one.
abbrev pub at_bridge : Option ℕ → HashMap State → State
at_bridge (some b) delegates = found (get b delegates)
at_bridge none delegates = default

insert_self : (b : ℕ) (s : State) (m : HashMap State) → get b (insert b s m) ≡ some s
insert_self b s m = get-insert b b s m ∙ hit b
  where
    hit : (n : ℕ) → (if n == n then some s else get b m) ≡ some s
    hit n = ground arith

insert_other :
    (b c : ℕ) (s : State) (m : HashMap State) → (b == c) ≡ false → get c (insert b s m) ≡ get c m
insert_other b c s m e = get-insert b c s m ∙ rw e refl

module _ {bridge : ℕ → Option ℕ} {delegates : HashMap State} {next : ℕ}
    (h : IsOwned bridge delegates next) where
  module _ (p : ℕ) (absent : bridge p ≡ none) where
    abbrev pub extended : ℕ → Option ℕ
    extended q = if p == q then some next else bridge q

    old_or_new : (q b : ℕ) → extended q ≡ some b → ((p ≡ q) × (b ≡ next)) ⊎ (bridge q ≡ some b)
    old_or_new q b e = ground arith

    later : (b : ℕ) → b < next → (next == b) ≡ false
    later b lt = ground arith

    reached : (q : ℕ) → (p == q) ≡ true → bridge q ≡ none
    reached q e = ap bridge (sym (same e)) ∙ absent
      where
        same : (p == q) ≡ true → p ≡ q
        same e = ground arith

    pub IsOwned-extended : IsOwned extended (insert next default delegates) (next + 1)
    IsOwned-extended = record {
      old = λ q b e. elim (old_or_new q b e) [
        | inl (same, new) ↦ omega arith
        | inr e' ↦ omega (arith, h.old q b e')
      ];
      apart = λ q r b e f. both q r b (old_or_new q b e) (old_or_new r b f);
      present = λ q b e. elim (old_or_new q b e) [
        | inl (same, new) ↦ (default, rw new (insert_self next default delegates))
        | inr e' ↦
            let (s, stored) = h.present q b e' in
            (s, insert_other next b default delegates (later b (h.old q b e')) ∙ stored)
      ];
    }
      where
        both :
            (q r b : ℕ)
            → ((p ≡ q) × (b ≡ next)) ⊎ (bridge q ≡ some b)
            → ((p ≡ r) × (b ≡ next)) ⊎ (bridge r ≡ some b)
            → q ≡ r
        both q r b (inl e) (inl f) = omega arith
        both q r b (inl e) (inr f) = absurd (omega (arith, h.old r b f))
        both q r b (inr e) (inl f) = absurd (omega (arith, h.old q b e))
        both q r b (inr e) (inr f) = h.apart q r b e f

    -- A new delegate is in the state in which the peripheral's delegate will be found to be.
    pub extended_state :
        (q : ℕ)
        → at_bridge (extended q) (insert next default delegates) ≡ at_bridge (bridge q) delegates
    extended_state q = elim (Bool-cases (p == q)) [
      | inl e ↦ rw (e, reached q e) (ap found (insert_self next default delegates))
      | inr e ↦ rw e (elim (Option-cases (bridge q)) [
        | inl none_yet ↦ rw none_yet refl
        | inr (b, e') ↦
            rw e' (ap found (insert_other next b default delegates (later b (h.old q b e'))))
      ])
    ]

  module _ (p b : ℕ) (own : bridge p ≡ some b) (s : State) where
    pub IsOwned-insert : IsOwned bridge (insert b s delegates) next
    IsOwned-insert = record {
      old = h.old;
      apart = h.apart;
      present = λ q c e. elim (Bool-cases (b == c)) [
        | inl same ↦ (s, get-insert b c s delegates ∙ rw same refl)
        | inr differ ↦
            let (t, stored) = h.present q c e in (t, insert_other b c s delegates differ ∙ stored)
      ];
    }

    pub inserted_state : at_bridge (bridge p) (insert b s delegates) ≡ s
    inserted_state = rw own (ap found (insert_self b s delegates))

    pub others_state :
        (q : ℕ)
        → p ≢ q
        → at_bridge (bridge q) (insert b s delegates) ≡ at_bridge (bridge q) delegates
    others_state q differ = elim (Option-cases (bridge q)) [
      | inl e ↦ rw e refl
      | inr (c, e) ↦ rw e (ap found (insert_other b c s delegates (apart_at c e)))
    ]
      where
        apart_at : (c : ℕ) → bridge q ≡ some c → (b == c) ≡ false
        apart_at c e = elim (Bool-cases (b == c)) [
          | inl same ↦ absurd (differ (h.apart p q c (own ∙ ap some (ground arith)) e))
          | inr r ↦ r
        ]

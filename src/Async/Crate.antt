-- ===== src/Async/Crate.antt =====
-- The third-party crate futures_channel, as far as the code relies on it: what polling the
-- receiver of a oneshot channel gives after the calls of a trace. The laws are its documented
-- behaviour: a receiver resolves to the value sent, resolves to `Canceled` once its sender is
-- dropped unused, and is pending until then.
use corebluetooth_rs.Prelude.{
  ℕ, ◌≡◌, refl, ap, ◌∙◌, List, [], ◌∷◌, ◌++◌, arith, Result, ok, err, ◌==◌, if◌then◌else◌,
}
use corebluetooth_rs.Async.Trace.{Call, settled, ends}

pub data Canceled : Type 0 where
  canceled : Canceled

pub data Poll (A : Type 0) : Type 0 where
  pending : Poll A
  ready : A → Poll A

pub record OneshotCrate (V : Type 0) : Type 0 where
  pub poll : List (Call V) → ℕ → Poll (Result V Canceled)
  pub poll_open : (calls : List (Call V)) (id : ℕ) → settled id calls ≡ 0 → poll calls id ≡ pending
  pub poll_sent :
      (later earlier : List (Call V)) (id : ℕ) (v : V)
      → settled id earlier ≡ 0
      → poll (later ++ Call.send id v ∷ earlier) id ≡ ready (ok v)
  pub poll_closed :
      (later earlier : List (Call V)) (id : ℕ)
      → settled id earlier ≡ 0
      → poll (later ++ Call.close id ∷ earlier) id ≡ ready (err canceled)

-- A channel that behaves so: the first use of the sender decides.
module _ {V : Type 0} where
  abbrev used : ℕ → Call V → Poll (Result V Canceled)
  used id (Call.send s v) = if s == id then ready (ok v) else pending
  used id (Call.close s) = if s == id then ready (err canceled) else pending
  used id _ = pending

  abbrev first : Poll (Result V Canceled) → Poll (Result V Canceled) → Poll (Result V Canceled)
  first (ready r) now = ready r
  first pending now = now

  abbrev scan : List (Call V) → ℕ → Poll (Result V Canceled)
  scan [] id = pending
  scan (call ∷ calls) id = first (scan calls id) (used id call)

  used_open : (call : Call V) (id : ℕ) → ends id call ≡ 0 → used id call ≡ pending
  used_open (Call.send s v) id h = ground arith
  used_open (Call.close s) id h = ground arith
  used_open _ id h = refl

  pub scan_open : (calls : List (Call V)) (id : ℕ) → settled id calls ≡ 0 → scan calls id ≡ pending
  unfolding settled
  scan_open [] id h = refl
  scan_open (call ∷ calls) id h =
      ap (λ p. first p (used id call)) (scan_open calls id (omega arith))
      ∙ used_open call id (omega arith)

  pub scan_later :
      (later calls : List (Call V)) (id : ℕ) (r : Result V Canceled)
      → scan calls id ≡ ready r
      → scan (later ++ calls) id ≡ ready r
  scan_later [] calls id r h = h
  scan_later (call ∷ later) calls id r h =
      ap (λ p. first p (used id call)) (scan_later later calls id r h)

  pub used_self :
      (calls : List (Call V)) (id : ℕ) (call : Call V) (r : Result V Canceled)
      → settled id calls ≡ 0
      → used id call ≡ ready r
      → scan (call ∷ calls) id ≡ ready r
  used_self calls id call r h e = ap (λ p. first p (used id call)) (scan_open calls id h) ∙ e

abbrev pub first_use : (V : Type 0) → OneshotCrate V
first_use V = record {
  poll = scan;
  poll_open = scan_open;
  poll_sent = λ later earlier id v h.
      scan_later later (Call.send id v ∷ earlier) id (ok v)
        (used_self earlier id (Call.send id v) (ok v) h (ground arith));
  poll_closed = λ later earlier id h.
      scan_later later (Call.close id ∷ earlier) id (err canceled)
        (used_self earlier id (Call.close id) (err canceled) h (ground arith));
}

-- ===== src/Async/Oneshot.antt =====
-- `OneshotMap` of corebluetooth-async/src/peripheral.rs (and the map `connecting` of
-- central_manager.rs): requests that wait for a callback, a oneshot sender under each key.
-- `register` is `oneshot::channel()` followed by `insert`, which drops the sender that it
-- replaces; `resolve` is `remove` followed by `send` if there was a sender.
use corebluetooth_rs.Prelude.{
  ℕ, ◌+◌, ◌≡◌, ◌≢◌, refl, List, ◌∷◌, Option, none, some, arith, if◌then◌else◌, ◌==◌,
}
use corebluetooth_rs.Prelude.HashMap.{
  HashMap, get, insert, remove, held, held_by, is_id, held-insert, held-remove, get-insert,
  get-remove_ne,
}
use corebluetooth_rs.Async.Trace.{Call, Trace, settled}

-- From a key to the number of a sender.
abbrev pub OneshotMap : Type 0
OneshotMap = HashMap ℕ

module _ {V : Type 0} where
  abbrev close_old : Option ℕ → List (Call V) → List (Call V)
  close_old none calls = calls
  close_old (some old) calls = Call.close old ∷ calls

  -- `oneshot::channel()`
  abbrev pub channel : Trace V → Trace V
  channel t = record t { calls = Call.oneshot t.next ∷ t.calls; next = t.next + 1 }

  -- The receiver that the code returns is that of the sender `t.next`.
  unfoldable pub register : ℕ → OneshotMap → Trace V → OneshotMap × Trace V
  register key map t =
      let opened = channel t in
      (insert key t.next map, record opened { calls = close_old (get key map) opened.calls })

  unfoldable pub resolve : ℕ → V → OneshotMap → Trace V → OneshotMap × Trace V
  resolve key value map t = elim (get key map) [
    | none ↦ (map, t)
    | some sender ↦ (remove key map, record t { calls = Call.send sender value ∷ t.calls })
  ]

  -- The same for `l2cap_channel_opened`, a `Cell` with room for one sender.
  unfoldable pub register_cell : Option ℕ → Trace V → Option ℕ × Trace V
  register_cell cell t =
      let opened = channel t in (some t.next, record opened { calls = close_old cell opened.calls })

  unfoldable pub resolve_cell : V → Option ℕ → Trace V → Option ℕ × Trace V
  resolve_cell value none t = (none, t)
  resolve_cell value (some sender) t = (none, record t { calls = Call.send sender value ∷ t.calls })

  -- A new request adds its own sender to those held or consumed, and changes no other.
  pub register_account :
      (id key : ℕ) (map : OneshotMap) (t : Trace V)
      → held id (register key map t).0 + settled id (register key map t).1.calls
        ≡ held id map + settled id t.calls + is_id t.next id
  unfolding register settled
  register_account id key map t = ground (arith, held-insert id key t.next map)

  -- A callback consumes the sender that it takes out of the map, and no other.
  pub resolve_account :
      (id key : ℕ) (value : V) (map : OneshotMap) (t : Trace V)
      → held id (resolve key value map t).0 + settled id (resolve key value map t).1.calls
        ≡ held id map + settled id t.calls
  unfolding resolve settled
  resolve_account id key value map t = ground (arith, held-remove id key map)

  pub register_cell_account :
      (id : ℕ) (cell : Option ℕ) (t : Trace V)
      → held_by id (register_cell cell t).0 + settled id (register_cell cell t).1.calls
        ≡ held_by id cell + settled id t.calls + is_id t.next id
  unfolding register_cell settled
  register_cell_account id none t = omega arith
  register_cell_account id (some old) t = omega arith

  pub resolve_cell_account :
      (id : ℕ) (value : V) (cell : Option ℕ) (t : Trace V)
      → held_by id (resolve_cell value cell t).0 + settled id (resolve_cell value cell t).1.calls
        ≡ held_by id cell + settled id t.calls
  unfolding resolve_cell settled
  resolve_cell_account id value none t = refl
  resolve_cell_account id value (some old) t = omega arith

  -- Only a registration takes a new number.
  pub resolve_next :
      (key : ℕ) (value : V) (map : OneshotMap) (t : Trace V)
      → (resolve key value map t).1.next ≡ t.next
  unfolding resolve
  resolve_next key value map t = ground arith

  pub resolve_cell_next :
      (value : V) (cell : Option ℕ) (t : Trace V) → (resolve_cell value cell t).1.next ≡ t.next
  unfolding resolve_cell
  resolve_cell_next value none t = refl
  resolve_cell_next value (some s) t = refl

  pub register_next :
      (key : ℕ) (map : OneshotMap) (t : Trace V) → (register key map t).1.next ≡ t.next + 1
  unfolding register
  register_next key map t = refl

  pub register_cell_next :
      (cell : Option ℕ) (t : Trace V) → (register_cell cell t).1.next ≡ t.next + 1
  unfolding register_cell
  register_cell_next cell t = refl

  -- What a key maps to after each operation.
  pub get-register :
      (key j : ℕ) (map : OneshotMap) (t : Trace V)
      → get j (register key map t).0 ≡ (if key == j then some t.next else get j map)
  unfolding register
  get-register key j map t = get-insert key j t.next map

  pub get-resolve_ne :
      (key j : ℕ) (value : V) (map : OneshotMap) (t : Trace V)
      → key ≢ j
      → get j (resolve key value map t).0 ≡ get j map
  unfolding resolve
  get-resolve_ne key j value map t h = ground (arith, get-remove_ne key j map)

  -- A waiting sender gets the value.
  pub resolve_found :
      (key id : ℕ) (value : V) (map : OneshotMap) (t : Trace V)
      → get key map ≡ some id
      → (resolve key value map t).1.calls ≡ Call.send id value ∷ t.calls
  unfolding resolve
  resolve_found key id value map t h = rw (h, resolve)

  -- A sender that is replaced is dropped.
  pub register_found :
      (key id : ℕ) (map : OneshotMap) (t : Trace V)
      → get key map ≡ some id
      → (register key map t).1.calls ≡ Call.close id ∷ Call.oneshot t.next ∷ t.calls
  unfolding register
  register_found key id map t h = rw (h, register)

  pub resolve_cell_found :
      (id : ℕ) (value : V) (cell : Option ℕ) (t : Trace V)
      → cell ≡ some id
      → (resolve_cell value cell t).1.calls ≡ Call.send id value ∷ t.calls
  unfolding resolve_cell
  resolve_cell_found id value cell t h = rw (h, resolve_cell)

  pub register_cell_found :
      (id : ℕ) (cell : Option ℕ) (t : Trace V)
      → cell ≡ some id
      → (register_cell cell t).1.calls ≡ Call.close id ∷ Call.oneshot t.next ∷ t.calls
  unfolding register_cell
  register_cell_found id cell t h = rw h

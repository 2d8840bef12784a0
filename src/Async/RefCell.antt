-- ===== src/Async/RefCell.antt =====
-- `std::cell::RefCell`: a value and the number of its shared borrows that are alive. `borrow_mut`
-- panics while there is one.
use corebluetooth_rs.Prelude.{ℕ, ◌+◌, ◌-◌, Outcome, done, panic, ◌==◌, if◌then◌else◌}

pub record RefCell {ℓ} (A : Type ℓ) : Type ℓ where
  pub value : A
  pub readers : ℕ

module _ {ℓ} {A : Type ℓ} where
  abbrev pub new : A → RefCell A
  new a = record { value = a; readers = 0 }

  -- `borrow()`: a guard lives until `release`.
  abbrev pub borrow : RefCell A → RefCell A
  borrow c = record c { readers = c.readers + 1 }

  abbrev pub release : RefCell A → RefCell A
  release c = record c { readers = c.readers - 1 }

  -- `borrow_mut()`, a change through the guard, and the guard's drop.
  abbrev pub update_mut : (A → A) → RefCell A → Outcome (RefCell A)
  update_mut change c = if c.readers == 0 then done (record c { value = change c.value }) else panic

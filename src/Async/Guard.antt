-- ===== src/Async/Guard.antt =====
-- `ScopeGuard` of corebluetooth-async/src/util.rs: a closure that changes a state, run when the
-- guard is dropped unless it was defused.
pub record ScopeGuard (S : Type 0) : Type 0 where
  pub dropfn : S → S

module _ {S : Type 0} where
  abbrev pub defer : (S → S) → ScopeGuard S
  defer dropfn = record { dropfn = dropfn }

  abbrev pub drop : ScopeGuard S → S → S
  drop self s = self.dropfn s

  -- `forget` keeps the guard from being dropped.
  abbrev pub defuse : ScopeGuard S → S → S
  defuse self s = s

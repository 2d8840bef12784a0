-- ===== src/Async/Trace.antt =====
-- The calls that corebluetooth-async makes of the channel crates (futures_channel and
-- async_broadcast) and, through corebluetooth, of CoreBluetooth, as a trace. The crates are not
-- part of the repository: a channel is a number, and a call on it an entry of the trace.
-- corebluetooth-async/src/util.rs wraps the broadcast channels.
use corebluetooth_rs.Prelude.{ℕ, ◌+◌, List, [], ◌∷◌}
use corebluetooth_rs.Prelude.HashMap.{is_id}
use corebluetooth_rs.Bluetooth.Messages.{Message}

pub data Call (V : Type 0) : Type 0 where
  -- `oneshot::channel()`, `Sender::send`, and the drop of a sender that was not used
  oneshot : ℕ → Call V
  send : ℕ → V → Call V
  close : ℕ → Call V
  -- `async_broadcast::broadcast(cap)` with `set_overflow(true)`, `try_broadcast`, `new_receiver`
  open_broadcast : ℕ → ℕ → Call V
  try_broadcast : ℕ → V → Call V
  new_receiver : ℕ → Call V
  -- `mpsc::unbounded()`, `unbounded_send`, and the drop of the sender
  unbounded : ℕ → Call V
  unbounded_send : ℕ → V → Call V
  close_unbounded : ℕ → Call V
  -- a message to CoreBluetooth
  message : Message → Call V

-- The calls made so far, the latest first, and the numbers of the next channels of each kind.
pub record Trace (V : Type 0) : Type 0 where
  pub calls : List (Call V)
  pub next : ℕ
  pub next_broadcast : ℕ
  pub next_unbounded : ℕ

module _ {V : Type 0} where
  abbrev pub add : Call V → Trace V → Trace V
  add call t = record t { calls = call ∷ t.calls }

  -- `util::broadcast(cap)`, and `util::watch()`, which is `broadcast(1)`.
  unfoldable pub broadcast : ℕ → Trace V → ℕ × Trace V
  broadcast cap t = (
    t.next_broadcast,
    record t {
      calls = Call.open_broadcast t.next_broadcast cap ∷ t.calls;
      next_broadcast = t.next_broadcast + 1;
    },
  )

  unfoldable pub watch : Trace V → ℕ × Trace V
  unfolding broadcast
  watch t = broadcast 1 t

  -- How often the sender `id` of a oneshot channel was consumed: by `send`, or by its drop.
  abbrev pub ends : ℕ → Call V → ℕ
  ends id (Call.send s v) = is_id s id
  ends id (Call.close s) = is_id s id
  ends id _ = 0

  unfoldable pub settled : ℕ → List (Call V) → ℕ
  settled id [] = 0
  settled id (call ∷ calls) = ends id call + settled id calls

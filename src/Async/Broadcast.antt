-- ===== src/Async/Broadcast.antt =====
-- The third-party crate async_broadcast, as far as the code relies on it: what a receiver gives the
-- first time that it is polled to the end. The laws are its documented behaviour for a channel with
-- room for one message at least, whose sender is alive: a receiver gets the messages sent after it
-- was made, in order, and is pending until there is one.
use corebluetooth_rs.Prelude.{ℕ, ◌+◌, ◌≡◌, List, [], ◌∷◌, Result, ok, err, ◌==◌, if◌then◌else◌}
use corebluetooth_rs.Async.Crate.{Poll, pending, ready}
use corebluetooth_rs.Async.Trace.{Call}
use corebluetooth_rs.Error.Async.{Error, from_recv_error}

pub data RecvError : Type 0 where
  overflowed : ℕ → RecvError
  closed : RecvError

module _ {V : Type 0} where
  -- How many messages a call sends through the channel, and a list of them.
  abbrev pub sends : ℕ → Call V → ℕ
  sends channel (Call.try_broadcast c v) = if c == channel then 1 else 0
  sends channel _ = 0

  abbrev pub sent : ℕ → List (Call V) → ℕ
  sent channel [] = 0
  sent channel (call ∷ calls) = sends channel call + sent channel calls

-- `recv since channel`: the calls since the receiver was made, the latest first.
pub record BroadcastCrate (V : Type 0) : Type 0 where
  pub recv : List (Call V) → ℕ → Poll (Result V RecvError)
  pub recv_none :
      (since : List (Call V)) (channel : ℕ) → sent channel since ≡ 0 → recv since channel ≡ pending
  pub recv_first :
      (since : List (Call V)) (channel : ℕ) (v : V)
      → sent channel since ≡ 0
      → recv (Call.try_broadcast channel v ∷ since) channel ≡ ready (ok v)

-- `receiver.recv().await?`: the message, or the error as one of the crate.
unfoldable pub received : {V : Type 0} → Poll (Result V RecvError) → Poll (Result V Error)
unfolding from_recv_error
received pending = pending
received (ready (ok v)) = ready (ok v)
received (ready (err e)) = ready (err from_recv_error)

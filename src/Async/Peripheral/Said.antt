-- ===== src/Async/Peripheral/Said.antt =====
-- What the callbacks and requests of corebluetooth-async/src/peripheral.rs send through the
-- broadcast channels of the topics.
use mathlib.Core.List.{append_assoc}
use corebluetooth_rs.Prelude.{
  ℕ, ◌+◌, ◌≤◌, ◌≡◌, refl, sym, ap, ◌∙◌, Option, none, some, List, [], ◌∷◌, ◌++◌, Option-cases, inl,
  inr, arith,
}
use corebluetooth_rs.Prelude.HashMap.{get}
use corebluetooth_rs.Async.Broadcast.{sends, sent}
use corebluetooth_rs.Async.Oneshot.{OneshotMap, register, resolve, register_cell, resolve_cell}
use corebluetooth_rs.Async.Peripheral.State.{State, Update}
use corebluetooth_rs.Async.Peripheral.Topics.{Topic, number, one, IsFixed, channel_of}
use corebluetooth_rs.Async.Trace.{Call, Trace, add}

pub sent-append :
    (channel : ℕ) (later earlier : List (Call Update))
    → sent channel (later ++ earlier) ≡ sent channel later + sent channel earlier
sent-append channel [] earlier = omega arith
sent-append channel (call ∷ later) earlier = omega (arith, sent-append channel later earlier)

-- The trace grows by calls that send this often through the channel of each topic.
pub record Grows (count : Topic → ℕ) (t u : Trace Update) : Type 0 where
  pub new : List (Call Update)
  pub calls : u.calls ≡ new ++ t.calls
  pub counted : (topic : Topic) → sent (number topic) new ≡ count topic
  pub next : t.next_broadcast ≤ u.next_broadcast

abbrev pub silence : Topic → ℕ
silence topic = 0

pub resolve-Grows :
    (k : ℕ) (v : Update) (map : OneshotMap) (t : Trace Update)
    → Grows silence t (resolve k v map t).1
unfolding resolve
resolve-Grows k v map t = elim (Option-cases (get k map)) [
  | inl e ↦
      rw (e, resolve)
        (record { new = []; calls = refl; counted = λ topic. refl; next = omega arith })
  | inr (old, e) ↦
      rw (e, resolve)
        (record {
          new = Call.send old v ∷ [];
          calls = refl;
          counted = λ topic. refl;
          next = omega arith;
        })
]

pub resolve_cell-Grows :
    (v : Update) (cell : Option ℕ) (t : Trace Update) → Grows silence t (resolve_cell v cell t).1
unfolding resolve_cell
resolve_cell-Grows v none t = record {
  new = [];
  calls = refl;
  counted = λ topic. refl;
  next = omega arith;
}
resolve_cell-Grows v (some old) t = record {
  new = Call.send old v ∷ [];
  calls = refl;
  counted = λ topic. refl;
  next = omega arith;
}

pub register-Grows :
    (k : ℕ) (map : OneshotMap) (t : Trace Update) → Grows silence t (register k map t).1
unfolding register
register-Grows k map t = elim (Option-cases (get k map)) [
  | inl e ↦ rw e (record {
    new = Call.oneshot t.next ∷ [];
    calls = refl;
    counted = λ topic. refl;
    next = omega arith;
  })
  | inr (old, e) ↦ rw e (record {
    new = Call.close old ∷ Call.oneshot t.next ∷ [];
    calls = refl;
    counted = λ topic. refl;
    next = omega arith;
  })
]

pub register_cell-Grows :
    (cell : Option ℕ) (t : Trace Update) → Grows silence t (register_cell cell t).1
unfolding register_cell
register_cell-Grows none t = record {
  new = Call.oneshot t.next ∷ [];
  calls = refl;
  counted = λ topic. refl;
  next = omega arith;
}
register_cell-Grows (some old) t = record {
  new = Call.close old ∷ Call.oneshot t.next ∷ [];
  calls = refl;
  counted = λ topic. refl;
  next = omega arith;
}

-- The topics stay where they are, and the trace grows by that many messages on each.
pub record Goes (count : Topic → ℕ) (s t : State) : Type 0 where
  pub fixed : IsFixed t
  pub grows : Grows count s.trace t.trace

-- The topics and the characteristics keep their channels.
pub calm :
    {count : Topic → ℕ} {s : State} (t : State)
    → IsFixed s
    → ((topic : Topic) → channel_of topic t ≡ channel_of topic s)
    → t.characteristic_value_updates.value ≡ s.characteristic_value_updates.value
    → Grows count s.trace t.trace
    → Goes count s t
calm {count} {s} t h same map grows = record {
  fixed = record {
    topics = λ topic. same topic ∙ h.topics topic;
    later = rw map h.later;
    next = omega (arith, h.next, grows.next);
  };
  grows = grows;
}

pub published :
    (own : Topic) (v : Update) (s : State)
    → IsFixed s
    → Grows (one own) s.trace (add (Call.try_broadcast (channel_of own s) v) s.trace)
published own v s h = record {
  new = Call.try_broadcast (channel_of own s) v ∷ [];
  calls = refl;
  counted = λ topic. rw (h.topics own) (omega arith);
  next = omega arith;
}

-- A message through a channel that is no topic's, or none.
pub aside :
    (call : Call Update) (t : Trace Update)
    → ((topic : Topic) → sends (number topic) call ≡ 0)
    → Grows silence t (add call t)
aside call t silent = record {
  new = call ∷ [];
  calls = refl;
  counted = λ topic. omega (arith, silent topic);
  next = omega arith;
}

pub Grows-trans : {a b c : Trace Update} → Grows silence a b → Grows silence b c → Grows silence a c
Grows-trans {a} g h = record {
  new = h.new ++ g.new;
  calls = h.calls ∙ ap (λ l. h.new ++ l) g.calls ∙ sym (append_assoc h.new g.new a.calls);
  counted = λ topic.
      sent-append (number topic) h.new g.new ∙ omega (arith, h.counted topic, g.counted topic);
  next = omega (arith, g.next, h.next);
}

-- ===== src/TradeQueue/Invariant.antt =====
-- The bounds of src/ipc/trade_queue.py, and that every call keeps them.
use infotact_python_project.Prelude.{
  ℕ, suc, ◌≤◌, Bool, true, false, not, ◌&&◌, length, List, [], ◌∷◌, drop, ◌≡◌, All, Bool-cases, inl,
  inr, arith, length-append, length-drop, ◌==◌,
}
use infotact_python_project.TradeQueue.{
  Queue, TradeEvent, BackpressurePolicy, drop_oldest, drop_newest, block, raise, is_full,
  wait_not_full, must_wait, make_room, apply_policy, blocked, push, finish_push, count_drop,
  append_event, pop_batch, pop_nowait, clear, init, wait_not_empty, admitted, refused, raised,
  Admission,
}
use infotact_python_project.TradeQueue.Pops.{pop_batch_lem, pop_batch_waited, pop_nowait_lem, taken}

module _ {ℓ} {P : Type ℓ} where
  pub record IsValid (q : Queue P) : Type 0 where
    pub some_room : 1 ≤ q.capacity
    pub bounded : length q.queue ≤ q.capacity
    pub seen : length q.queue ≤ q.high_watermark
    pub mark : q.high_watermark ≤ q.capacity

  -- What the other threads do keeps the bounds.
  abbrev pub Keeps : (Queue P → Queue P) → Type ℓ
  Keeps others = (q : Queue P) → IsValid q → IsValid (others q)

  pub init-IsValid : (capacity : ℕ) (policy : BackpressurePolicy) → IsValid (init capacity policy)
  unfolding init
  init-IsValid capacity policy = record {
    some_room = omega arith;
    bounded = omega arith;
    seen = omega arith;
    mark = omega arith;
  }

  -- What an admission gives: after `admitted` there is room.
  abbrev Granted : Admission × Queue P → Type 0
  Granted (admitted, q) = IsValid q × (suc (length q.queue) ≤ q.capacity)
  Granted (refused, q) = IsValid q
  Granted (raised, q) = IsValid q

  shrunk : (q : Queue P) (n : ℕ) → IsValid q → IsValid (record q { queue = drop n q.queue })
  shrunk q n v = record {
    some_room = v.some_room;
    bounded = omega (arith, v.bounded, length-drop n q.queue);
    seen = omega (arith, v.seen, length-drop n q.queue);
    mark = v.mark;
  }

  count_drop-IsValid : (q : Queue P) → IsValid q → IsValid (count_drop q)
  unfolding count_drop
  count_drop-IsValid q v = record {
    some_room = v.some_room;
    bounded = v.bounded;
    seen = v.seen;
    mark = v.mark;
  }

  -- Past the loop the queue is closed, or has room.
  awake-Granted : (q : Queue P) → must_wait q ≡ false → IsValid q → Granted (blocked (true, q))
  unfolding blocked must_wait
  awake-Granted q e v = elim (Bool-cases q.closed) [ inl f ↦ simp f v | inr f ↦ simp f (v, free f) ]
    where
      free : q.closed ≡ false → suc (length q.queue) ≤ q.capacity
      free f = ground arith

  blocked-Granted :
      (waits : List (Queue P → Queue P)) (q : Queue P)
      → All Keeps waits
      → IsValid q
      → Granted (blocked (wait_not_full waits q))
  unfolding wait_not_full blocked
  blocked-Granted [] q keeps v = elim (Bool-cases (must_wait q)) [
    | inl e ↦ rw e (count_drop-IsValid q v)
    | inr e ↦ rw e (awake-Granted q e v)
  ]
  blocked-Granted (others ∷ later) q keeps v = elim (Bool-cases (must_wait q)) [
    | inl e ↦ rw e (blocked-Granted later (others q) keeps.1 (keeps.0 q v))
    | inr e ↦ rw e (awake-Granted q e v)
  ]

  apply_policy-Granted :
      (policy : BackpressurePolicy) (waits : List (Queue P → Queue P)) (q : Queue P)
      → All Keeps waits
      → q.capacity ≤ length q.queue
      → IsValid q
      → Granted (apply_policy policy waits q)
  unfolding apply_policy count_drop
  apply_policy-Granted drop_oldest waits q keeps full v = (
    count_drop-IsValid (record q { queue = drop 1 q.queue }) (shrunk q 1 v),
    omega (arith, v.bounded, v.some_room, length-drop 1 q.queue),
  )
  apply_policy-Granted drop_newest waits q keeps full v = count_drop-IsValid q v
  apply_policy-Granted block waits q keeps full v = blocked-Granted waits q keeps v
  apply_policy-Granted raise waits q keeps full v = count_drop-IsValid q v

  make_room-Granted :
      (waits : List (Queue P → Queue P)) (q : Queue P)
      → All Keeps waits
      → IsValid q
      → Granted (make_room waits q)
  unfolding make_room
  make_room-Granted waits q keeps v = elim (Bool-cases (is_full q)) [
    | inr e ↦ rw e (v, ground arith)
    | inl e ↦ rw e (apply_policy-Granted q.backpressure waits q keeps (ground arith) v)
  ]

  finish_push-IsValid :
      (event : TradeEvent P) (r : Admission × Queue P) → Granted r → IsValid (finish_push event r).1
  unfolding append_event finish_push
  finish_push-IsValid event (admitted, q) (v, room) = record {
    some_room = v.some_room;
    bounded = omega (arith, length-append q.queue (event ∷ []));
    seen = ground (arith, length-append q.queue (event ∷ []));
    mark = ground (arith, v.mark);
  }
  finish_push-IsValid event (refused, q) v = v
  finish_push-IsValid event (raised, q) v = v

  pub push-IsValid :
      (waits : List (Queue P → Queue P)) (event : TradeEvent P) (q : Queue P)
      → All Keeps waits
      → IsValid q
      → IsValid (push waits event q).1
  unfolding push
  push-IsValid waits event q keeps v = elim (Bool-cases q.closed) [
    | inl e ↦ simp e v
    | inr e ↦ simp e (finish_push-IsValid event _ (make_room-Granted waits q keeps v))
  ]

  taken-IsValid : (now_ns n : ℕ) (q : Queue P) → IsValid q → IsValid (taken now_ns n q)
  taken-IsValid now_ns n q v =
      let w = shrunk q n v in
      record { some_room = w.some_room; bounded = w.bounded; seen = w.seen; mark = w.mark }

  wait_not_empty-IsValid :
      (timed : Bool) (others : Queue P → Queue P) (q : Queue P)
      → Keeps others
      → IsValid q
      → IsValid (wait_not_empty timed others q)
  unfolding wait_not_empty
  wait_not_empty-IsValid timed others q keeps v =
      elim (Bool-cases (length q.queue == 0 && (not q.closed && timed))) [
        | inl e ↦ simp e (keeps q v)
        | inr e ↦ simp e v
      ]

  pub pop_batch-IsValid :
      (now_ns max_items : ℕ) (timed : Bool) (others : Queue P → Queue P) (q : Queue P)
      → Keeps others
      → IsValid q
      → IsValid (pop_batch now_ns max_items timed others q).1
  pop_batch-IsValid now_ns max_items timed others q keeps v =
      rw
        (
          pop_batch_waited now_ns max_items timed others q,
          pop_batch_lem now_ns max_items (wait_not_empty timed others q),
        )
        (taken-IsValid now_ns max_items _ (wait_not_empty-IsValid timed others q keeps v))

  pub pop_nowait-IsValid : (now_ns : ℕ) (q : Queue P) → IsValid q → IsValid (pop_nowait now_ns q).1
  pop_nowait-IsValid now_ns q v = rw (pop_nowait_lem now_ns q) (taken-IsValid now_ns 1 q v)

  pub clear-IsValid : (q : Queue P) → IsValid q → IsValid (clear q)
  unfolding clear
  clear-IsValid q v = record {
    some_room = v.some_room;
    bounded = omega arith;
    seen = omega arith;
    mark = v.mark;
  }

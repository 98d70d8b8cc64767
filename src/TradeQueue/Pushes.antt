-- ===== src/TradeQueue/Pushes.antt =====
-- What single operations of src/ipc/trade_queue.py add to the flow of events: a push on every
-- branch, an eviction, a refusal, and clearing.
use infotact_python_project.Prelude.{
  ℕ, ◌-◌, ◌≤◌, Bool, true, false, not, ◌&&◌, if◌then◌else◌, length, List, [], ◌∷◌, ◌++◌, take, drop,
  ◌≡◌, refl, ap, ◌∙◌, sym, Bool-cases, inl, inr, arith, Result, ok, append-nil, take-append-drop,
  length-take,
}
use infotact_python_project.TradeQueue.{
  Queue, TradeEvent, Error, BackpressurePolicy, drop_oldest, drop_newest, block, raise, is_full,
  wait_not_full, must_wait, make_room, apply_policy, blocked, push, finish_push, count_drop,
  append_event, refused, clear,
}
use infotact_python_project.TradeQueue.Pops.{taken, first}
use infotact_python_project.TradeQueue.Invariant.{IsValid}
use infotact_python_project.TradeQueue.Calls.{
  popped, evicted, cleared, is_popped, is_evicted, evicts, accepted, returned, fates, how_many,
  Flows, events_of-fates, how_many-fates, Flows-then,
}

module _ {ℓ} {P : Type ℓ} where
  pub still : (q : Queue P) → Flows q q [] [] 0
  unfolding how_many
  still q = record {
    order = sym (append-nil q.queue);
    pushed = omega arith;
    popped = omega arith;
    dropped = omega arith;
  }

  count_drop-Flows : (q : Queue P) → Flows q (count_drop q) [] [] 1
  unfolding how_many count_drop
  count_drop-Flows q = record {
    order = sym (append-nil q.queue);
    pushed = omega arith;
    popped = omega arith;
    dropped = omega arith;
  }

  append_event-Flows :
      (event : TradeEvent P) (q : Queue P) → Flows q (append_event event q) (event ∷ []) [] 0
  unfolding how_many append_event
  append_event-Flows event q = record {
    order = refl;
    pushed = omega arith;
    popped = omega arith;
    dropped = omega arith;
  }

  evict-Flows :
      (q : Queue P)
      → 1 ≤ length q.queue
      → Flows q
          (count_drop (record q { queue = drop 1 q.queue }))
          []
          (fates evicted (take 1 q.queue))
          0
  unfolding count_drop
  evict-Flows q some_event = record {
    order =
        ap (λ xs. xs ++ drop 1 q.queue) (events_of-fates evicted (take 1 q.queue))
        ∙ take-append-drop 1 q.queue
        ∙ sym (append-nil q.queue);
    pushed = omega arith;
    popped = omega (arith, how_many-fates is_popped evicted (take 1 q.queue));
    dropped =
        omega (arith, how_many-fates is_evicted evicted (take 1 q.queue), length-take 1 q.queue);
  }

  pub taken-Flows :
      (now_ns n : ℕ) (q : Queue P) → Flows q (taken now_ns n q) [] (fates popped (take n q.queue)) 0
  taken-Flows now_ns n q = record {
    order =
        ap (λ xs. xs ++ drop n q.queue) (events_of-fates popped (take n q.queue))
        ∙ take-append-drop n q.queue
        ∙ sym (append-nil q.queue);
    pushed = omega arith;
    popped = omega (arith, how_many-fates is_popped popped (take n q.queue));
    dropped = omega (arith, how_many-fates is_evicted popped (take n q.queue));
  }

  pub clear-Flows : (q : Queue P) → Flows q (clear q) [] (fates cleared q.queue) 0
  unfolding clear
  clear-Flows q = record {
    order = ap (λ xs. xs ++ []) (events_of-fates cleared q.queue);
    pushed = omega arith;
    popped = omega (arith, how_many-fates is_popped cleared q.queue);
    dropped = omega (arith, how_many-fates is_evicted cleared q.queue);
  }

  -- What a push without waits into an open queue returns and leaves.
  push_room :
      (event : TradeEvent P) (q : Queue P)
      → q.closed ≡ false
      → is_full q ≡ false
      → push [] event q ≡ (ok true, append_event event q)
  unfolding push make_room finish_push
  push_room event q e f = simp (e, f)

  push_closed :
      (event : TradeEvent P) (q : Queue P) → q.closed ≡ true → push [] event q ≡ (ok false, q)
  unfolding push
  push_closed event q e = simp e

  push_full :
      (event : TradeEvent P) (q : Queue P)
      → q.closed ≡ false
      → is_full q ≡ true
      → push [] event q ≡ finish_push event (apply_policy q.backpressure [] q)
  unfolding push make_room
  push_full event q e f = simp (e, f)

  times_out :
      (q : Queue P)
      → q.closed ≡ false
      → is_full q ≡ true
      → blocked (wait_not_full [] q) ≡ (refused, count_drop q)
  unfolding blocked wait_not_full must_wait
  times_out q e f = simp (e, f)

  unfoldable pub Pushed : TradeEvent P → Queue P → Result Error Bool × Queue P → Type ℓ
  Pushed event q r =
      Flows q r.1 (accepted event r.0)
        (if not q.closed && (is_full q && evicts q.backpressure)
          then fates evicted (take 1 q.queue)
          else [])
        (if q.closed then 0 else 1 - length (accepted event r.0))

  full-Flows :
      (policy : BackpressurePolicy) (event : TradeEvent P) (q : Queue P)
      → q.closed ≡ false
      → is_full q ≡ true
      → IsValid q
      → let r = finish_push event (apply_policy policy [] q) in
        Flows q r.1
          (accepted event r.0)
          (if evicts policy then fates evicted (take 1 q.queue) else [])
          (1 - length (accepted event r.0))
  unfolding apply_policy finish_push
  full-Flows drop_oldest event q e f v = rw (append-nil (fates evicted (take 1 q.queue))) at (
      Flows-then q _ _ [] (event ∷ []) (fates evicted (take 1 q.queue)) [] 0 0
        (evict-Flows q (ground (arith, v.some_room))) (append_event-Flows event _))
  full-Flows drop_newest event q e f v = count_drop-Flows q
  full-Flows block event q e f v = rw (times_out q e f) (count_drop-Flows q)
  full-Flows raise event q e f v = count_drop-Flows q

  pub push-Pushed :
      (event : TradeEvent P) (q : Queue P) → IsValid q → Pushed event q (push [] event q)
  unfolding Pushed
  push-Pushed event q v = elim (Bool-cases q.closed) [
    | inl e ↦ rw (push_closed event q e) (simp e (still q))
    | inr e ↦ elim (Bool-cases (is_full q)) [
      | inr f ↦ rw (push_room event q e f) (simp (e, f) (append_event-Flows event q))
      | inl f ↦ rw (push_full event q e f) (simp (e, f) (full-Flows q.backpressure event q e f v))
    ]
  ]

  pub returned-first : (xs : List (TradeEvent P)) → returned (first xs) ≡ take 1 xs
  returned-first [] = refl
  returned-first (x ∷ xs) = refl

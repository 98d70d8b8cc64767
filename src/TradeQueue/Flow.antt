-- ===== src/TradeQueue/Flow.antt =====
-- The flow of src/ipc/trade_queue.py: what arrives, leaves in order, with the counters that tell.
use infotact_python_project.Prelude.{
  ℕ, ◌+◌, false, length, List, [], ◌∷◌, ◌++◌, ◌≡◌, subst, ◌∙◌, sym, arith, append-nil,
}
use infotact_python_project.TradeQueue.{
  Queue, TradeEvent, BackpressurePolicy, close, subscribe, unsubscribe, init,
}
use infotact_python_project.TradeQueue.Pops.{pop_batch_lem, pop_nowait_lem}
use infotact_python_project.TradeQueue.Invariant.{
  IsValid, push-IsValid, pop_batch-IsValid, pop_nowait-IsValid, clear-IsValid, init-IsValid,
}
use infotact_python_project.TradeQueue.Calls.{
  Fate, popped, is_popped, is_evicted, Call, pushes, batches, pops, closes, clears, subscribes,
  unsubscribes, step, run, returned, arrivals, fates, departures, rejections, how_many, events_of,
  Flows, Flows-then,
}
use infotact_python_project.TradeQueue.Pushes.{
  still, taken-Flows, clear-Flows, Pushed, push-Pushed, returned-first,
}

module _ {ℓ} {P : Type ℓ} where
  pub step-Flows :
      (c : Call P) (q : Queue P)
      → IsValid q
      → Flows q (step c q) (arrivals c q) (departures c q) (rejections c q)
  unfolding step close subscribe unsubscribe how_many Pushed
  step-Flows (pushes event) q v = push-Pushed event q v
  step-Flows (batches now_ns max_items) q v =
      subst (λ r. Flows q r.1 [] (fates popped r.0) 0) (sym (pop_batch_lem now_ns max_items q))
        (taken-Flows now_ns max_items q)
  step-Flows (pops now_ns) q v =
      subst (λ r. Flows q r.1 [] (fates popped (returned r.0)) 0) (sym (pop_nowait_lem now_ns q))
        (rw (returned-first q.queue) (taken-Flows now_ns 1 q))
  step-Flows closes q v = record {
    order = sym (append-nil q.queue);
    pushed = omega arith;
    popped = omega arith;
    dropped = omega arith;
  }
  step-Flows clears q v = clear-Flows q
  step-Flows (subscribes callback) q v = record {
    order = sym (append-nil q.queue);
    pushed = omega arith;
    popped = omega arith;
    dropped = omega arith;
  }
  step-Flows (unsubscribes callback) q v = record {
    order = sym (append-nil q.queue);
    pushed = omega arith;
    popped = omega arith;
    dropped = omega arith;
  }

  pub step-IsValid : (c : Call P) (q : Queue P) → IsValid q → IsValid (step c q)
  unfolding step close subscribe unsubscribe
  step-IsValid (pushes event) q v = push-IsValid [] event q tt v
  step-IsValid (batches now_ns max_items) q v =
      pop_batch-IsValid now_ns max_items false (λ r. r) q (λ r w. w) v
  step-IsValid (pops now_ns) q v = pop_nowait-IsValid now_ns q v
  step-IsValid closes q v = record {
    some_room = v.some_room;
    bounded = v.bounded;
    seen = v.seen;
    mark = v.mark;
  }
  step-IsValid clears q v = clear-IsValid q v
  step-IsValid (subscribes callback) q v = record {
    some_room = v.some_room;
    bounded = v.bounded;
    seen = v.seen;
    mark = v.mark;
  }
  step-IsValid (unsubscribes callback) q v = record {
    some_room = v.some_room;
    bounded = v.bounded;
    seen = v.seen;
    mark = v.mark;
  }

  -- The same over a sequence of calls.
  unfoldable pub arrived : List (Call P) → Queue P → List (TradeEvent P)
  arrived [] q = []
  arrived (c ∷ calls) q = arrivals c q ++ arrived calls (step c q)

  unfoldable pub departed : List (Call P) → Queue P → List (Fate × TradeEvent P)
  departed [] q = []
  departed (c ∷ calls) q = departures c q ++ departed calls (step c q)

  unfoldable pub rejected : List (Call P) → Queue P → ℕ
  rejected [] q = 0
  rejected (c ∷ calls) q = rejections c q + rejected calls (step c q)

  run-Flows :
      (calls : List (Call P)) (q : Queue P)
      → IsValid q
      → Flows q (run calls q) (arrived calls q) (departed calls q) (rejected calls q)
  unfolding run arrived departed rejected
  run-Flows [] q v = still q
  run-Flows (c ∷ calls) q v =
      Flows-then q (step c q) _ _ _ _ _ _ _ (step-Flows c q v)
        (run-Flows calls (step c q) (step-IsValid c q v))

  -- The calls of all threads, in any order, on a new queue: the events that left, in the order in
  -- which they left, followed by those that wait, are the events that were taken, in the order in
  -- which they came. `total_pushed` counts those, `total_popped` the ones that a pop returned, and
  -- `dropped_count` the ones that a push evicted together with those that an open queue refused.
  pub run_flow :
      (capacity : ℕ) (policy : BackpressurePolicy) (calls : List (Call P))
      → let new = init {P = P} capacity policy in
        (events_of (departed calls new) ++ (run calls new).queue ≡ arrived calls new)
        × ((run calls new).total_pushed ≡ length (arrived calls new))
        × ((run calls new).total_popped ≡ how_many is_popped (departed calls new))
        × ((run calls new).dropped_count
            ≡ how_many is_evicted (departed calls new) + rejected calls new)
  unfolding init
  run_flow capacity policy calls =
      let f = run-Flows calls (init capacity policy) (init-IsValid capacity policy) in
      (f.order, f.pushed ∙ omega arith, f.popped ∙ omega arith, f.dropped ∙ omega arith)

  -- The calls of all threads, in any order, on a new queue: it never holds more events than its
  -- capacity, which is at least one, and the high watermark lies between the two.
  pub run_bounded :
      (capacity : ℕ) (policy : BackpressurePolicy) (calls : List (Call P))
      → IsValid (run calls (init {P = P} capacity policy))
  unfolding run
  run_bounded capacity policy calls = go calls (init capacity policy) (init-IsValid capacity policy)
    where
      go : (calls : List (Call P)) (q : Queue P) → IsValid q → IsValid (run calls q)
      go [] q v = v
      go (c ∷ calls) q v = go calls (step c q) (step-IsValid c q v)

-- ===== src/TradeQueue/Pops.antt =====
-- The pops of src/ipc/trade_queue.py: what a batch takes, and what it leaves.
use infotact_python_project.Prelude.{
  ℕ, zero, suc, Option, none, some, ◌+◌, ◌-◌, min, false, List, [], ◌∷◌, ◌++◌, length, take, drop,
  ◌≡◌, refl, ap, ap₂, ◌∙◌, arith, append-nil, append_assoc, take-min, drop-min, sym, ◌==◌, Bool,
  Bool-cases, inl, inr,
}
use infotact_python_project.TradeQueue.{
  Queue, TradeEvent, pop_loop, pop_batch, pop_nowait, wait_not_empty, count_popped,
}

module _ {ℓ} {P : Type ℓ} where
  -- How long the events waited, altogether.
  unfoldable pub dwell : ℕ → List (TradeEvent P) → ℕ
  dwell now_ns [] = 0
  dwell now_ns (event ∷ rest) = (now_ns - event.enqueue_time_ns) + dwell now_ns rest

  -- The queue without its first `n` events, and its counters.
  abbrev pub taken : ℕ → ℕ → Queue P → Queue P
  taken now_ns n q = record q {
    queue = drop n q.queue;
    total_popped = q.total_popped + length (take n q.queue);
    total_queue_delay_ns = q.total_queue_delay_ns + dwell now_ns (take n q.queue);
  }

  pop_loop_lem :
      (now_ns count : ℕ) (events batch : List (TradeEvent P)) (q : Queue P)
      → pop_loop now_ns count batch (record q { queue = events }) ≡ (
        batch ++ take count events,
        record q {
          queue = drop count events;
          total_queue_delay_ns = q.total_queue_delay_ns + dwell now_ns (take count events);
        },
      )
  unfolding pop_loop dwell
  pop_loop_lem now_ns zero events batch q =
      ap₂ (λ b d. (b, record q { queue = events; total_queue_delay_ns = d }))
        (sym (append-nil batch)) (omega arith)
  pop_loop_lem now_ns (suc count) [] batch q =
      ap₂ (λ b d. (b, record q { queue = []; total_queue_delay_ns = d })) (sym (append-nil batch))
        (omega arith)
  pop_loop_lem now_ns (suc count) (event ∷ rest) batch q =
      pop_loop_lem now_ns count rest (batch ++ (event ∷ [])) (record q {
        total_queue_delay_ns = q.total_queue_delay_ns + (now_ns - event.enqueue_time_ns);
      })
      ∙ ap₂ (λ b d. (b, record q { queue = drop count rest; total_queue_delay_ns = d }))
          (append_assoc batch (event ∷ []) (take count rest)) (omega arith)

  no_wait : (q : Queue P) → wait_not_empty false (λ r. r) q ≡ q
  unfolding wait_not_empty
  no_wait q = elim (Bool-cases (length q.queue == 0)) [
    | inr e ↦ rw e refl
    | inl e ↦ rw e (elim (Bool-cases q.closed) [ inl f ↦ rw f refl | inr f ↦ rw f refl ])
  ]

  -- What follows the wait of `pop_batch`.
  abbrev take_batch : ℕ → ℕ → Queue P → List (TradeEvent P) × Queue P
  take_batch now_ns max_items q =
      count_popped (pop_loop now_ns (min max_items (length q.queue)) [] q)

  -- A batch that waited is a batch, without a wait, of the queue at the end of the wait.
  pub pop_batch_waited :
      (now_ns max_items : ℕ) (timed : Bool) (others : Queue P → Queue P) (q : Queue P)
      → pop_batch now_ns max_items timed others q
        ≡ pop_batch now_ns max_items false (λ r. r) (wait_not_empty timed others q)
  unfolding pop_batch
  pop_batch_waited now_ns max_items timed others q =
      sym (ap (take_batch now_ns max_items) (no_wait (wait_not_empty timed others q)))

  -- A batch is the front of the queue, of at most `max_items` events.
  pub pop_batch_lem :
      (now_ns max_items : ℕ) (q : Queue P)
      → pop_batch now_ns max_items false (λ r. r) q
        ≡ (take max_items q.queue, taken now_ns max_items q)
  unfolding pop_batch count_popped
  pop_batch_lem now_ns max_items q =
      ap (take_batch now_ns max_items) (no_wait q)
      ∙ ap count_popped (pop_loop_lem now_ns (min max_items (length q.queue)) q.queue [] q)
      ∙ ap₂
          (λ t d. (
            t,
            record q {
              queue = d;
              total_popped = q.total_popped + length t;
              total_queue_delay_ns = q.total_queue_delay_ns + dwell now_ns t;
            },
          ))
          (take-min max_items q.queue) (drop-min max_items q.queue)

  abbrev pub first : List (TradeEvent P) → Option (TradeEvent P)
  first [] = none
  first (event ∷ rest) = some event

  pop_nowait_events :
      (now_ns : ℕ) (events : List (TradeEvent P)) (q : Queue P)
      → let r = record q { queue = events } in
        pop_nowait now_ns r ≡ (first events, taken now_ns 1 r)
  unfolding pop_nowait dwell
  pop_nowait_events now_ns [] q =
      ap₂ (λ n d. (none, record q { queue = []; total_popped = n; total_queue_delay_ns = d }))
        (omega arith) (omega arith)
  pop_nowait_events now_ns (event ∷ rest) q =
      ap
        (λ d. (
          some event,
          record q { queue = rest; total_popped = q.total_popped + 1; total_queue_delay_ns = d },
        ))
        (omega arith)

  pub pop_nowait_lem :
      (now_ns : ℕ) (q : Queue P) → pop_nowait now_ns q ≡ (first q.queue, taken now_ns 1 q)
  pop_nowait_lem now_ns q = pop_nowait_events now_ns q.queue q

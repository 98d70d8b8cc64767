-- ===== src/Worker/Drained.antt =====
-- The end of src/persistence/worker.py: after the shutdown nothing waits, and every trade that
-- did is in the ledger or counted as abandoned.
use infotact_python_project.Prelude.{
  ℕ, suc, ◌<◌, false, if◌then◌else◌, ltb, List, [], ◌++◌, length, ◌≡◌, refl, sym, ap, ◌∙◌,
  append_assoc, arith,
}
use infotact_python_project.Float.{PriceFormat}
use infotact_python_project.TradeQueue.{TradeEvent}
use infotact_python_project.Repository.{TradeRecord, Repository}
use infotact_python_project.Worker.{
  Worker, flush_held, run_rounds, run_loop, Round, drain_remaining, stopped, error, flushing,
}
use infotact_python_project.Worker.Persist.{held, Moves, Moves-then}
use infotact_python_project.Worker.Order.{taken as taken_by_rounds, run_rounds-InOrder}
use infotact_python_project.Worker.Flushed.{
  ltb-add, Settles-then, flush_queue-Flushed, flush_held-Settles,
}

module _ {ℓ κ μ} {P : Type ℓ} {S : Type κ} {L : Type μ} (f : PriceFormat P)
    (rounded_product : P → ℕ → P) (clock : ℕ → ℕ) (repo : Repository (TradeRecord P) S L) where
  -- A shutdown ends with nothing held and nothing in the queue. What was held, followed by what was
  -- queued, falls into two parts: the first went into the ledger, in order, and is counted in the
  -- metrics as persisted or duplicate; the second is counted as abandoned. The state is STOPPED if
  -- nothing was abandoned, and ERROR otherwise. Nobody else uses the queue, and the batch size is
  -- not zero.
  pub drain_remaining_accounts :
      (w : Worker P S)
      → 0 < w.batch_size
      → let w' = drain_remaining f rounded_product clock repo w in
        (written : List (TradeEvent P)) × (given_up : List (TradeEvent P)) × Moves f rounded_product
          clock repo w w' written given_up
        × (written ++ given_up ≡ held w.pending_batch ++ w.trade_queue.queue)
        × (w'.trade_queue.queue ≡ [])
        × (held w'.pending_batch ≡ [])
        × (w'.state ≡ (if ltb 0 (length given_up) then error else stopped))
  unfolding drain_remaining
  drain_remaining_accounts w size =
      let v : Worker P S = record w { state = flushing } in
      let s = flush_held-Settles f rounded_product clock repo w.pending_batch v refl in
      let q = flush_held f rounded_product clock repo w.pending_batch v in
      let h =
        flush_queue-Flushed f rounded_product clock repo (suc (length w.trade_queue.queue)) q
          s.none_held (omega (arith, s.same_size))
          (omega (arith, ap (λ t. length t.queue) s.same_queue)) in
      let t =
        Settles-then f rounded_product clock repo (held w.pending_batch) q.1.trade_queue.queue
          (false, v) q _ s h in
      (
        t.written,
        t.given_up,
        record {
          ledger = t.moves.ledger;
          received = t.moves.received;
          sorted_out = t.moves.sorted_out;
          abandoned = t.moves.abandoned;
        },
        t.order ∙ ap (λ r. held w.pending_batch ++ r.queue) s.same_queue,
        t.empty,
        t.none_held,
        ap (λ b. if b then error else stopped)
            (ap (ltb w.metrics.trades_abandoned) t.moves.abandoned
              ∙ ltb-add w.metrics.trades_abandoned (length t.given_up)),
      )

  -- Nothing is lost silently. Over a whole run of the worker, whatever the other threads do
  -- before it is stopped and the repository answers: what was held, what the rounds took off the
  -- queue and what was queued at the stop fall, in this order, into a first part, which went into
  -- the ledger in order and is counted as persisted or duplicate, and a second one, which is
  -- counted as abandoned. The queue is empty at the end. The batch size is not zero, and after
  -- the stop nobody else uses the queue.
  pub run_loop_accounts :
      (rounds : List (Round P)) (w : Worker P S)
      → 0 < w.batch_size
      → let stopping = run_rounds f rounded_product clock repo rounds w in
        let w' = run_loop f rounded_product clock repo rounds w in
        (written : List (TradeEvent P)) × (given_up : List (TradeEvent P)) × Moves f rounded_product
          clock repo w w' written given_up
        × (written ++ given_up
            ≡ held w.pending_batch
              ++ (taken_by_rounds f rounded_product clock repo rounds w
                  ++ stopping.trade_queue.queue))
        × (w'.trade_queue.queue ≡ [])
  unfolding run_loop
  run_loop_accounts rounds w size =
      let m = run_rounds-InOrder f rounded_product clock repo rounds w in
      let v = run_rounds f rounded_product clock repo rounds w in
      let (written, given_up, n, order, empty, none_held, state) =
        drain_remaining_accounts v (omega (arith, m.same_size, size)) in
      (
        m.written ++ written,
        given_up,
        Moves-then f rounded_product clock repo w v _ m.written written [] given_up m.moves n,
        append_assoc m.written written given_up
            ∙ ap (λ r. m.written ++ r) order
            ∙ sym (append_assoc m.written (held v.pending_batch) v.trade_queue.queue)
            ∙ ap (λ r. r ++ v.trade_queue.queue) m.order
            ∙ append_assoc (held w.pending_batch)
                (taken_by_rounds f rounded_product clock repo rounds w) v.trade_queue.queue,
        empty,
      )

-- ===== src/Worker/Stored.antt =====
-- The worker of src/persistence/worker.py over the table of src/persistence/repository.py: where
-- the trades of a whole run end.
use infotact_python_project.Prelude.{
  ℕ, ◌+◌, ◌<◌, List, ◌++◌, length, map, ◌≡◌, ◌∙◌, sym, subst, All,
}
use infotact_python_project.Float.{PriceFormat}
use infotact_python_project.TradeQueue.{TradeEvent}
use infotact_python_project.Repository.{TradeRecord, Database, Repository}
use infotact_python_project.Repository.Rows.{
  OnePerId, Has, insert_all-Has, insert_all-OnePerId, insert_all-appends,
}
use infotact_python_project.Repository.Table.{sqlite_repository}
use infotact_python_project.Worker.{Worker, Round, to_record, run_rounds, run_loop}
use infotact_python_project.Worker.Persist.{held}
use infotact_python_project.Worker.Order.{taken}
use infotact_python_project.Worker.Drained.{run_loop_accounts}

module _ {ℓ} {P : Type ℓ} (f : PriceFormat P) (rounded_product : P → ℕ → P) (clock : ℕ → ℕ)
    (max_retries : ℕ) where
  abbrev repo : Repository (TradeRecord P) (Database P) (List (TradeRecord P))
  repo = sqlite_repository max_retries

  -- A whole run of the worker on the table, whatever the other threads do before it is stopped
  -- and however the attempts to write go. What was held, what the rounds took off the queue and
  -- what was queued at the stop fall into two parts. The trade id of every trade of the first is
  -- in the table at the end; the second is counted as abandoned. Every row that was there is
  -- there still, in its place, and no trade id has two rows, given that none had at the start.
  -- The batch size is not zero, and after the stop nobody else uses the queue.
  pub run_loop_stores :
      (rounds : List (Round P)) (w : Worker P (Database P))
      → 0 < w.batch_size
      → OnePerId w.repository.matched_trades
      → let w' = run_loop f rounded_product clock repo rounds w in
        (written : List (TradeEvent P)) × (given_up : List (TradeEvent P)) × (added : List
          (TradeRecord P))
        × (written ++ given_up
            ≡ held w.pending_batch
              ++ (taken f rounded_product clock repo rounds w
                  ++ (run_rounds f rounded_product clock repo rounds w).trade_queue.queue))
        × All
            (Has w'.repository.matched_trades)
            (map (to_record f rounded_product clock repo) written)
        × (w'.metrics.trades_abandoned ≡ w.metrics.trades_abandoned + length given_up)
        × (w'.repository.matched_trades ≡ w.repository.matched_trades ++ added)
        × OnePerId w'.repository.matched_trades
  run_loop_stores rounds w size unique =
      let (written, given_up, m, order, empty) =
        run_loop_accounts f rounded_product clock repo rounds w size in
      let records = map (to_record f rounded_product clock repo) written in
      let table = w.repository.matched_trades in
      let (added, e) = insert_all-appends records table in
      (
        written,
        given_up,
        added,
        order,
        subst (λ t. All (Has t) records) (sym m.ledger) (insert_all-Has records table),
        m.abandoned,
        m.ledger ∙ e,
        subst OnePerId (sym m.ledger) (insert_all-OnePerId records table unique),
      )

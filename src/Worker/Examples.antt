-- ===== src/Worker/Examples.antt =====
-- Runs of the persistence worker on a database that is locked at times, and its theorems at
-- concrete inputs.
use infotact_python_project.Prelude.{
  ℕ, ◌+◌, false, none, List, [], ◌∷◌, ◌++◌, length, ◌≡◌, refl, ◌*◌, arith, if◌then◌else◌, ltb, map,
  All,
}
use infotact_python_project.Float.Cents.{Cents, cents_format}
use infotact_python_project.TradeQueue.{
  TradeEvent, Queue, drop_oldest, init, pop_batch, count_popped, pop_loop, wait_not_empty,
}
use infotact_python_project.Repository.{TradeRecord, Repository}
use infotact_python_project.Bytes.{bytes_eq}
use infotact_python_project.Repository.{
  Database, free, locked, broken, save_trades_batch, try_write, transact, all_storable, storable,
  insert_all, insert_or_ignore, has_id, post_init,
}
use infotact_python_project.Repository.Table.{sqlite_repository}
use infotact_python_project.Worker.{
  Worker, Round, stopped, error, running, run_rounds, run_loop, drain_remaining, to_record, popped,
  round_of, persist_batch, finish_batch, back_off, count_retry, take_queue, others_act, flush_held,
  flush_queue, flush_next, flush_batch, settle_batch, abandon, write_with_retries, unless_done,
  next_try,
}
use infotact_python_project.Worker.Persist.{held, Moves}
use infotact_python_project.Worker.Order.{InOrder, taken, run_rounds-InOrder}
use infotact_python_project.Worker.Drained.{drain_remaining_accounts, run_loop_accounts}
use infotact_python_project.Worker.Stored.{run_loop_stores}
use infotact_python_project.Repository.Rows.{OnePerId, Has}

-- One attempt for each write.
abbrev repo : Repository (TradeRecord Cents) (Database Cents) (List (TradeRecord Cents))
repo = sqlite_repository 1

-- `round(price * quantity, 4)` in whole cents; it does not matter here.
abbrev keep_price : Cents → ℕ → Cents
keep_price price quantity = price

abbrev clock : ℕ → ℕ
clock n = 100 * n

abbrev event : ℕ → TradeEvent Cents
event n = record {
  trade_id = n ∷ [];
  buy_order_id = n;
  sell_order_id = n + 100;
  price = (10050, omega arith);
  quantity = 5;
  notional = (50250, omega arith);
  timestamp_ns = n;
  enqueue_time_ns = n;
  symbol = [];
}

-- Five trades are queued, in batches of two.
abbrev queue : Queue Cents
queue = record (init 8 drop_oldest) {
  queue = event 1 ∷ event 2 ∷ event 3 ∷ event 4 ∷ event 5 ∷ [];
  total_pushed = 5;
}

-- The second and the third write fail, then the fifth and the sixth: the first batch goes through,
-- the second one on its second retry, and the last one is given up at shutdown.
abbrev worker : Worker Cents (Database Cents)
worker = record {
  trade_queue = queue;
  repository = record {
    matched_trades = [];
    attempts = free ∷ locked ∷ locked ∷ free ∷ broken ∷ locked ∷ [];
  };
  batch_size = 2;
  retry_initial_delay = 50;
  retry_max_delay = 150;
  retry_delay = 50;
  shutdown_retry_attempts = 2;
  pending_batch = none;
  state = running;
  metrics = record {
    trades_received = 0;
    trades_persisted = 0;
    duplicate_count = 0;
    failed_write_count = 0;
    batch_count = 0;
    last_batch_size = 0;
    last_write_latency_ns = 0;
    last_queue_latency_ns = 0;
    total_write_time_ns = 0;
    retry_count = 0;
    trades_abandoned = 0;
  };
  readings = 0;
}

abbrev quiet : Round Cents
quiet = record { interrupted = false; before = λ q. q; waiting = λ q. q }

abbrev rounds : List (Round Cents)
rounds = quiet ∷ quiet ∷ quiet ∷ quiet ∷ []

rounds-taken :
    taken cents_format keep_price clock repo rounds worker
    ≡ event 1 ∷ event 2 ∷ event 3 ∷ event 4 ∷ []
unfolding taken popped pop_batch count_popped pop_loop wait_not_empty round_of persist_batch
    finish_batch back_off count_retry take_queue others_act save_trades_batch try_write transact
    all_storable storable insert_all insert_or_ignore has_id bytes_eq to_record post_init init
rounds-taken = refl

run_rounds-InOrder_example :
    InOrder cents_format keep_price clock repo worker
      (run_rounds cents_format keep_price clock repo rounds worker)
      []
      (taken cents_format keep_price clock repo rounds worker)
run_rounds-InOrder_example = run_rounds-InOrder cents_format keep_price clock repo rounds worker

drain_remaining_accounts_example :
    let w' = drain_remaining cents_format keep_price clock repo worker in
    (written : List (TradeEvent Cents)) × (given_up : List (TradeEvent Cents)) × Moves cents_format
      keep_price clock repo worker w' written given_up
    × (written ++ given_up ≡ queue.queue)
    × (w'.trade_queue.queue ≡ [])
    × (held w'.pending_batch ≡ [])
    × (w'.state ≡ (if ltb 0 (length given_up) then error else stopped))
drain_remaining_accounts_example =
    drain_remaining_accounts cents_format keep_price clock repo worker (omega arith)

run_loop_accounts_example :
    let stopping = run_rounds cents_format keep_price clock repo rounds worker in
    let w' = run_loop cents_format keep_price clock repo rounds worker in
    (written : List (TradeEvent Cents)) × (given_up : List (TradeEvent Cents)) × Moves cents_format
      keep_price clock repo worker w' written given_up
    × (written ++ given_up
        ≡ taken cents_format keep_price clock repo rounds worker ++ stopping.trade_queue.queue)
    × (w'.trade_queue.queue ≡ [])
run_loop_accounts_example =
    run_loop_accounts cents_format keep_price clock repo rounds worker (omega arith)

run_loop_stores_example :
    let w' = run_loop cents_format keep_price clock repo rounds worker in
    (written : List (TradeEvent Cents)) × (given_up : List (TradeEvent Cents)) × (added : List
      (TradeRecord Cents))
    × (written ++ given_up
        ≡ taken cents_format keep_price clock repo rounds worker
          ++ (run_rounds cents_format keep_price clock repo rounds worker).trade_queue.queue)
    × All
        (Has w'.repository.matched_trades)
        (map (to_record cents_format keep_price clock repo) written)
    × (w'.metrics.trades_abandoned ≡ 0 + length given_up)
    × (w'.repository.matched_trades ≡ added)
    × OnePerId w'.repository.matched_trades
run_loop_stores_example =
    run_loop_stores cents_format keep_price clock 1 rounds worker (omega arith) tt

-- The books at the end.
worker-metrics :
    let m = (run_loop cents_format keep_price clock repo rounds worker).metrics in
    (m.trades_received ≡ 4)
    × (m.trades_persisted ≡ 4)
    × (m.retry_count ≡ 3)
    × (m.trades_abandoned ≡ 1)
unfolding run_loop run_rounds drain_remaining flush_held flush_queue flush_next flush_batch
    settle_batch abandon write_with_retries unless_done next_try popped pop_batch count_popped
    pop_loop wait_not_empty round_of persist_batch finish_batch back_off count_retry take_queue
    others_act save_trades_batch try_write transact all_storable storable insert_all
    insert_or_ignore has_id bytes_eq to_record post_init init
worker-metrics = (refl, refl, refl, refl)

-- ===== src/Worker.antt =====
-- src/persistence/worker.py: `BackgroundPersistenceWorker`, which takes batches of trades off the
-- trade queue and writes them to a repository. A clock reading is the next one of a given
-- sequence, a delay a whole number of some unit, and what the other threads do to the queue is an
-- argument. The last `except` of the loop has nothing to catch: `pop_batch` does not raise, and
-- `_persist_batch` catches what the repository raises.
pub mod Persist
pub mod Order
pub mod Shutdown
pub mod Flushed
pub mod Drained
pub mod Stored
pub mod Report
mod Examples
use infotact_python_project.Prelude.{
  ℕ, zero, suc, ◌+◌, ◌-◌, ◌*◌, min, max, Bool, true, false, not, ◌&&◌, if◌then◌else◌, ltb, ◌==◌,
  Option, none, some, List, [], ◌∷◌, ◌++◌, length, map, Result, ok, err, ◌≡◌,
}
use infotact_python_project.Float.{PriceFormat, is_positive}
use infotact_python_project.Processor.{Text}
use infotact_python_project.TradeQueue.{TradeEvent, Queue, pop_batch}
use infotact_python_project.Repository.{TradeRecord, Failure, Repository, post_init}

pub data WorkerState : Type 0 where
  stopped running flushing error : WorkerState

-- `PersistenceMetrics`, without the fields that `get_metrics` fills in.
pub record Metrics : Type 0 where
  pub trades_received : ℕ
  pub trades_persisted : ℕ
  pub duplicate_count : ℕ
  pub failed_write_count : ℕ
  pub batch_count : ℕ
  pub last_batch_size : ℕ
  pub last_write_latency_ns : ℕ
  pub last_queue_latency_ns : ℕ
  pub total_write_time_ns : ℕ
  pub retry_count : ℕ
  pub trades_abandoned : ℕ

-- `readings` is how often the clock was read.
pub record Worker {ℓ κ} (P : Type ℓ) (S : Type κ) : Type (ℓ ⊔ κ) where
  pub trade_queue : Queue P
  pub repository : S
  pub batch_size : ℕ
  pub retry_initial_delay : ℕ
  pub retry_max_delay : ℕ
  pub retry_delay : ℕ
  pub shutdown_retry_attempts : ℕ
  pub pending_batch : Option (List (TradeEvent P))
  pub state : WorkerState
  pub metrics : Metrics
  pub readings : ℕ

-- One round of the loop: whether the stop event ends the pause before a retry, and what the other
-- threads do to the queue before the round, and while it waits for a first trade.
pub record Round {ℓ} (P : Type ℓ) : Type ℓ where
  pub interrupted : Bool
  pub before : Queue P → Queue P
  pub waiting : Queue P → Queue P

-- `ev.enqueue_time_ns` of the last trade.
pub last_enqueue_time {ℓ} : {P : Type ℓ} → List (TradeEvent P) → ℕ
last_enqueue_time [] = 0
last_enqueue_time (event ∷ []) = event.enqueue_time_ns
last_enqueue_time (event ∷ next ∷ rest) = last_enqueue_time (next ∷ rest)

module _ {ℓ κ μ} {P : Type ℓ} {S : Type κ} {L : Type μ} (f : PriceFormat P)
    (rounded_product : P → ℕ → P) (clock : ℕ → ℕ) (repo : Repository (TradeRecord P) S L) where
  pub to_record : TradeEvent P → TradeRecord P
  to_record ev = post_init f rounded_product (record {
    trade_id = ev.trade_id;
    buy_order_id = ev.buy_order_id;
    sell_order_id = ev.sell_order_id;
    price = ev.price;
    quantity = ev.quantity;
    notional = ev.notional;
    timestamp_ns = ev.timestamp_ns;
    symbol = ev.symbol;
  })

  -- What follows the call of the repository in `_persist_batch`.
  pub finish_batch :
      List (TradeEvent P) → Result Failure (ℕ × ℕ) × S → Worker P S → Bool × Worker P S
  finish_batch batch (ok (inserted, duplicates), s) w = (
    true,
    record w {
      repository = s;
      retry_delay = w.retry_initial_delay;
      pending_batch = none;
      metrics = record w.metrics {
        trades_received = w.metrics.trades_received + length batch;
        trades_persisted = w.metrics.trades_persisted + inserted;
        duplicate_count = w.metrics.duplicate_count + duplicates;
        batch_count = w.metrics.batch_count + 1;
        last_batch_size = length batch;
        last_write_latency_ns = max 1 (clock (w.readings + 2) - clock (w.readings + 1));
        last_queue_latency_ns = clock w.readings - last_enqueue_time batch;
        total_write_time_ns =
            w.metrics.total_write_time_ns + max 1 (clock (w.readings + 2) - clock (w.readings + 1));
      };
      readings = w.readings + 3;
    },
  )
  finish_batch batch (err e, s) w = (
    false,
    record w {
      repository = s;
      pending_batch = some batch;
      metrics = record w.metrics {
        failed_write_count = w.metrics.failed_write_count + 1;
        last_write_latency_ns = max 1 (clock (w.readings + 2) - clock (w.readings + 1));
      };
      readings = w.readings + 3;
    },
  )

  -- `_persist_batch`
  pub persist_batch : List (TradeEvent P) → Worker P S → Bool × Worker P S
  persist_batch [] w = (true, w)
  persist_batch (event ∷ rest) w =
      finish_batch (event ∷ rest)
        (repo.save_trades_batch (map to_record (event ∷ rest)) w.repository) w

  pub count_retry : Worker P S → Worker P S
  count_retry w = record w {
    metrics = record w.metrics { retry_count = w.metrics.retry_count + 1 };
  }

  -- The backoff after a retry that failed.
  pub back_off : Bool × Worker P S → Worker P S
  back_off (true, w) = w
  back_off (false, w) = record w { retry_delay = min (w.retry_delay * 2) w.retry_max_delay }

  pub take_queue : List (TradeEvent P) × Queue P → Worker P S → Worker P S
  take_queue (batch, q) w = record w { trade_queue = q; readings = w.readings + 1 }

  -- `trade_queue.pop_batch`, with the clock reading that it does.
  pub popped : Bool → (Queue P → Queue P) → Worker P S → List (TradeEvent P) × Queue P
  popped timed others w = pop_batch (clock w.readings) w.batch_size timed others w.trade_queue

  pub others_act : (Queue P → Queue P) → Worker P S → Worker P S
  others_act others w = record w { trade_queue = others w.trade_queue }

  -- A round that is not interrupted.
  pub round_of : Option (List (TradeEvent P)) → (Queue P → Queue P) → Worker P S → Worker P S
  round_of (some batch) waiting w = back_off (persist_batch batch (count_retry w))
  round_of none waiting w =
      (persist_batch (popped true waiting w).0 (take_queue (popped true waiting w) w)).1

  abbrev pub holds : Option (List (TradeEvent P)) → Bool
  holds none = false
  holds (some batch) = true

  -- The loop of `_run_loop`: the stop event is set after the last round, or in a pause.
  pub run_rounds : List (Round P) → Worker P S → Worker P S
  run_rounds [] w = w
  run_rounds (r ∷ rounds) w =
      if holds w.pending_batch && r.interrupted
      then others_act r.before w
      else run_rounds rounds (round_of w.pending_batch r.waiting (others_act r.before w))

  -- The `if attempt:` of `write_with_bounded_retries`.
  pub next_try : Bool → Worker P S → Worker P S
  next_try false w = w
  next_try true w = count_retry w

  pub unless_done : Bool × Worker P S → (Worker P S → Bool × Worker P S) → Bool × Worker P S
  unless_done (true, w) later = (true, w)
  unless_done (false, w) later = later w

  -- The `for` of `write_with_bounded_retries`; `again` is false for the first attempt.
  pub write_with_retries : ℕ → Bool → List (TradeEvent P) → Worker P S → Bool × Worker P S
  write_with_retries zero again batch w = (false, w)
  write_with_retries (suc attempts) again batch w =
      unless_done (persist_batch batch (next_try again w))
        (λ v. write_with_retries attempts true batch v)

  pub abandon : List (TradeEvent P) → Worker P S → Worker P S
  abandon batch w = record w {
    pending_batch = none;
    metrics = record w.metrics { trades_abandoned = w.metrics.trades_abandoned + length batch };
  }

  -- A batch at shutdown, with `gave_up` before and after.
  pub settle_batch : List (TradeEvent P) → Bool × Worker P S → Bool × Worker P S
  settle_batch batch (true, w) = (false, w)
  settle_batch batch (false, w) = (true, abandon batch w)

  pub flush_batch : List (TradeEvent P) → Bool × Worker P S → Bool × Worker P S
  flush_batch batch (true, w) = (true, abandon batch w)
  flush_batch batch (false, w) =
      settle_batch batch (write_with_retries w.shutdown_retry_attempts false batch w)

  pub flush_held : Option (List (TradeEvent P)) → Worker P S → Bool × Worker P S
  flush_held none w = (false, w)
  flush_held (some held) w = flush_batch held (false, w)

  -- A round of the `while` of `_drain_remaining`, before the later ones.
  pub flush_next :
      List (TradeEvent P) × Queue P
      → Bool × Worker P S
      → (Bool × Worker P S → Worker P S)
      → Worker P S
  flush_next ([], q) (gave_up, w) later = take_queue ([], q) w
  flush_next (event ∷ rest, q) (gave_up, w) later =
      later (flush_batch (event ∷ rest) (gave_up, take_queue (event ∷ rest, q) w))

  -- The `while`, with fuel. Nobody else uses the queue.
  pub flush_queue : ℕ → Bool × Worker P S → Worker P S
  flush_queue zero (gave_up, w) = w
  flush_queue (suc n) (gave_up, w) =
      flush_next (popped false (λ q. q) w) (gave_up, w) (λ p. flush_queue n p)

  -- `abandoned_total` is how much `trades_abandoned` grew. Every batch takes a trade at least, so
  -- the size of the queue and one more is fuel enough.
  pub drain_remaining : Worker P S → Worker P S
  drain_remaining w = record flushed {
    state =
        if ltb w.metrics.trades_abandoned flushed.metrics.trades_abandoned then error else stopped;
  }
    where
      flushed : Worker P S
      flushed =
          flush_queue (suc (length w.trade_queue.queue))
            (flush_held w.pending_batch (record w { state = flushing }))

  -- `_run_loop`
  pub run_loop : List (Round P) → Worker P S → Worker P S
  run_loop rounds w = drain_remaining (run_rounds rounds w)

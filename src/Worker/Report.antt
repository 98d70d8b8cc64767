-- ===== src/Worker/Report.antt =====
-- `get_metrics` of src/persistence/worker.py, the properties of `PersistenceMetrics`, and what
-- `get_persistence_ui_stats` of src/monitor/latency_monitor.py shows of them.
use infotact_python_project.Prelude.{ℕ, if◌then◌else◌, ◌==◌, Option, none, some, List, length}
use infotact_python_project.Float.{FloatOps}
use infotact_python_project.TradeQueue.{TradeEvent, size}
use infotact_python_project.Worker.{Worker, WorkerState, Metrics}

-- All of `PersistenceMetrics`.
pub record Report : Type 0 where
  pub worker_state : WorkerState
  pub counts : Metrics
  pub pending_queue_size : ℕ
  pub pending_retry_batch_size : ℕ

-- `len(self._pending_batch) if self._pending_batch else 0`
pub held_size {ℓ} : {P : Type ℓ} → Option (List (TradeEvent P)) → ℕ
held_size none = 0
held_size (some batch) = length batch

pub get_metrics {ℓ κ} : {P : Type ℓ} {S : Type κ} → Worker P S → Report
get_metrics w = record {
  worker_state = w.state;
  counts = w.metrics;
  pending_queue_size = size w.trade_queue;
  pending_retry_batch_size = held_size w.pending_batch;
}

-- What the dashboard shows; the state is none where the worker is off.
pub record PersistenceUiStats {ℓ} (P : Type ℓ) : Type ℓ where
  pub worker_state : Option WorkerState
  pub trades_persisted : ℕ
  pub pending_queue_size : ℕ
  pub failed_writes : ℕ
  pub batch_count : ℕ
  pub last_write_latency_ms : P
  pub avg_write_latency_ms : P
  pub last_queue_latency_us : P

module _ {ℓ} {P : Type ℓ} (f : FloatOps P) where
  pub last_write_latency_ms : Report → P
  last_write_latency_ms m = f.div (f.float m.counts.last_write_latency_ns) (f.float 1_000_000)

  pub avg_write_latency_ms : Report → P
  avg_write_latency_ms m =
      if m.counts.batch_count == 0
      then f.float 0
      else f.div (f.div (f.float m.counts.total_write_time_ns) (f.float m.counts.batch_count))
          (f.float 1_000_000)

  pub last_queue_latency_us : Report → P
  last_queue_latency_us m = f.div (f.float m.counts.last_queue_latency_ns) (f.float 1_000)

  -- There is no worker where persistence is off.
  pub get_persistence_ui_stats {κ} : {S : Type κ} → Option (Worker P S) → PersistenceUiStats P
  get_persistence_ui_stats none = record {
    worker_state = none;
    trades_persisted = 0;
    pending_queue_size = 0;
    failed_writes = 0;
    batch_count = 0;
    last_write_latency_ms = f.float 0;
    avg_write_latency_ms = f.float 0;
    last_queue_latency_us = f.float 0;
  }
  get_persistence_ui_stats (some w) = record {
    worker_state = some (get_metrics w).worker_state;
    trades_persisted = (get_metrics w).counts.trades_persisted;
    pending_queue_size = (get_metrics w).pending_queue_size;
    failed_writes = (get_metrics w).counts.failed_write_count;
    batch_count = (get_metrics w).counts.batch_count;
    last_write_latency_ms = last_write_latency_ms (get_metrics w);
    avg_write_latency_ms = avg_write_latency_ms (get_metrics w);
    last_queue_latency_us = last_queue_latency_us (get_metrics w);
  }

-- ===== src/Monitor.antt =====
-- src/monitor/latency_monitor.py: `LatencyMonitor`, which feeds orders to the engine, times them,
-- looks for large orders, large trades and sweeps of several price levels, and hands the trades
-- to the queue of the persistence worker. The engine is the pure Python one: it has no
-- `get_trade_count`, `get_trades_since` or `get_book_depth`. Clock readings are arguments.
pub mod Orders
pub mod Book
pub mod Views
pub mod Tracked
pub mod Flow
pub mod Runs
pub mod Sweeps
pub mod State
pub mod Dashboard
mod Examples
use infotact_python_project.Prelude.{
  ℕ, zero, suc, ◌+◌, ◌-◌, ◌≡◌, max, Bool, true, false, not, ◌&&◌, ◌||◌, if◌then◌else◌, ltb, leb,
  ◌==◌, Option, none, some, List, [], ◌∷◌, ◌++◌, length, take, drop, sorted,
}
use infotact_python_project.Float.{PriceOrder, FloatOps, same_price, max_float, min_float}
use infotact_python_project.Bytes.{bytes_eq}
use infotact_python_project.Processor.{Text, upper, buy_text, sell_text}
use infotact_python_project.Engine
use infotact_python_project.Engine.{Order, Engine, Trade, buy, sell, add_order}
use infotact_python_project.Metrics.Latency.{ranked}
use infotact_python_project.TradeQueue
use infotact_python_project.TradeQueue.{Queue, drop_oldest}
use infotact_python_project.TradeQueue.Events.{push_trade}
use infotact_python_project.Simulator
use infotact_python_project.Simulator.{Random, Simulator, MockOrder, next_order}

-- The `event_type`s.
pub data EventType : Type 0 where
  resting_order matched_trade whale_sweep : EventType

pub record WhaleEvent {ℓ} (P : Type ℓ) : Type ℓ where
  pub event_type : EventType
  pub side : Text
  pub price : P
  pub quantity : ℕ
  pub notional : P
  pub order_id : Option ℕ
  pub buy_id : Option ℕ
  pub sell_id : Option ℕ
  pub timestamp_ns : ℕ
  pub levels_cleared : ℕ
  pub price_end : Option P

-- `_last_order_info`
pub record OrderInfo {ℓ} (P : Type ℓ) : Type ℓ where
  pub order_id : ℕ
  pub side : Text
  pub price : P
  pub quantity : ℕ
  pub timestamp_ns : ℕ

-- `is_relative` is `whale_mode == "relative"`; there is a queue if persistence is enabled.
pub record Monitor {ℓ κ} (P : Type ℓ) (G : Type κ) : Type (ℓ ⊔ κ) where
  pub engine : Engine P
  pub seed : ℕ
  pub whale_threshold : ℕ
  pub is_relative : Bool
  pub sweep_min_levels : ℕ
  pub rolling_window : ℕ
  pub simulator : Simulator P G
  pub all_latencies_ns : List ℕ
  pub rolling_latencies_ns : List ℕ
  pub rolling_order_quantities : List ℕ
  pub start_time_ns : ℕ
  pub last_order_info : Option (OrderInfo P)
  pub last_latency_ns : ℕ
  pub last_processed_trade_idx : ℕ
  pub whale_events : List (WhaleEvent P)
  pub trade_queue : Option (Queue P)

-- The clock readings of one order: its timestamp, and around the call of the engine.
pub record Times : Type 0 where
  pub ts_ns : ℕ
  pub t0 : ℕ
  pub t1 : ℕ

-- What surrounds one trade that is handed over: the clock at a large trade, at the timestamp of
-- the event for the queue, and at its enqueue time, and what the other threads do to the queue
-- between the two locked parts of the push.
pub record Handover {ℓ} (P : Type ℓ) : Type ℓ where
  pub seen_ns : ℕ
  pub stamped_ns : ℕ
  pub enqueued_ns : ℕ
  pub others : Queue P → Queue P

-- `append` on a `deque` of `maxlen` entries, which drops the oldest.
unfoldable pub append_bounded {ℓ} : {A : Type ℓ} → ℕ → List A → A → List A
append_bounded maxlen xs x = drop (length xs + 1 - maxlen) (xs ++ (x ∷ []))

-- The text of a trade's side.
abbrev pub trade_text : Text
trade_text = b'T' ∷ b'R' ∷ b'A' ∷ b'D' ∷ b'E' ∷ []

-- The `side` of `add_custom_order`, a text or a number.
pub data Side : Type 0 where
  named : Text → Side
  numbered : ℕ → Side

unfoldable pub side_value : Side → ℕ
side_value (named text) = if bytes_eq (upper text) buy_text then buy else sell
side_value (numbered side) = if side == buy then buy else sell

unfoldable pub side_text : Side → Text
side_text (named text) = upper text
side_text (numbered side) = if side == buy then buy_text else sell_text

-- The variables of the loop of `_detect_sweep`; `levels` has the prices of `seen`.
pub record Tally {ℓ} (P : Type ℓ) : Type ℓ where
  pub levels : List P
  pub executed : ℕ
  pub notional : P

-- The last of the entries, `x` if there is none.
abbrev pub last_or {ℓ} : {A : Type ℓ} → A → List A → A
last_or x [] = x
last_or x (y ∷ ys) = last_or y ys

module _ {ℓ} {P : Type ℓ} ⦃o : PriceOrder P⦄ where
  unfoldable pub seen_price : P → List P → Bool
  seen_price price [] = false
  seen_price price (level ∷ levels) = same_price level price || seen_price price levels

module _ {ℓ κ} {P : Type ℓ} {G : Type κ} ⦃o : PriceOrder P⦄ (f : FloatOps P) (r : Random P G) where
  -- `self._init_persistence` makes the queue.
  unfoldable pub init_queue : Bool → ℕ → Option (Queue P)
  init_queue true queue_capacity = some (TradeQueue.init queue_capacity drop_oldest)
  init_queue false queue_capacity = none

  unfoldable pub init : ℕ → P → ℕ → Bool → ℕ → Bool → ℕ → ℕ → ℕ → Monitor P G
  init seed base_price whale_threshold is_relative rolling_window enable_persistence queue_capacity
        sweep_min_levels now_ns =
      record {
        engine = Engine.init P;
        seed = seed;
        whale_threshold = whale_threshold;
        is_relative = is_relative;
        sweep_min_levels = sweep_min_levels;
        rolling_window = rolling_window;
        simulator = Simulator.init f r seed base_price;
        all_latencies_ns = [];
        rolling_latencies_ns = [];
        rolling_order_quantities = [];
        start_time_ns = now_ns;
        last_order_info = none;
        last_latency_ns = 0;
        last_processed_trade_idx = 0;
        whale_events = [];
        trade_queue = init_queue enable_persistence queue_capacity;
      }

module _ {ℓ} {P : Type ℓ} ⦃o : PriceOrder P⦄ (f : FloatOps P) where
  -- `pct = max(0.0, min(100.0, pct))`
  abbrev pub clamp_pct : P → P
  clamp_pct pct = max_float (f.float 0) (min_float (f.float 100) pct)

  unfoldable pub calculate_percentile : List ℕ → P → P
  calculate_percentile [] pct = f.float 0
  calculate_percentile (x ∷ []) pct = f.float x
  calculate_percentile (x ∷ y ∷ values) pct = ranked f (x ∷ y ∷ values) (clamp_pct pct)

  abbrev pub order_event : OrderInfo P → WhaleEvent P
  order_event i = record {
    event_type = resting_order;
    side = i.side;
    price = i.price;
    quantity = i.quantity;
    notional = f.mul i.price (f.float i.quantity);
    order_id = some i.order_id;
    buy_id = none;
    sell_id = none;
    timestamp_ns = i.timestamp_ns;
    levels_cleared = 0;
    price_end = none;
  }

  module _ {κ} {G : Type κ} where
    unfoldable pub get_current_whale_threshold : Monitor P G → ℕ
    get_current_whale_threshold m =
        if m.is_relative && leb 20 (length m.rolling_order_quantities)
        then max 100
            (f.truncate (calculate_percentile (sorted leb m.rolling_order_quantities) (f.float 95)))
        else m.whale_threshold

    unfoldable pub add_event : WhaleEvent P → Monitor P G → Monitor P G
    add_event event m = record m { whale_events = append_bounded 50 m.whale_events event }

    -- The end of `_on_order_submitted`.
    unfoldable pub inspect_order : OrderInfo P → Monitor P G → Monitor P G
    inspect_order i m =
        if leb (get_current_whale_threshold m) i.quantity then add_event (order_event i) m else m

    unfoldable pub on_order_submitted : OrderInfo P → Monitor P G → Monitor P G
    on_order_submitted i m = inspect_order i (record m {
      rolling_order_quantities = append_bounded 200 m.rolling_order_quantities i.quantity;
    })

    unfoldable pub engine_trade_count : Monitor P G → ℕ
    engine_trade_count m = length m.engine.trades

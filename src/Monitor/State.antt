-- ===== src/Monitor/State.antt =====
-- The market overview that the dashboard shows (src/monitor/latency_monitor.py), and the whale
-- events that it selects from it. `same` is Python's `is`, the identity of objects.
pub mod Pinned
use infotact_python_project.Prelude.{
  ℕ, zero, suc, ◌+◌, ◌-◌, ◌≡◌, min, Bool, true, false, not, ◌||◌, if◌then◌else◌, ltb, leb, ◌==◌,
  Option, none, some, List, [], ◌∷◌, ◌++◌, length, map, drop, replicate, get_or, sorted,
}
use infotact_python_project.Float.{PriceOrder, FloatOps, same_price, max_float, min_float}
use infotact_python_project.Processor.{Text}
use infotact_python_project.Engine.{Trade}
use infotact_python_project.Metrics.{traded_qty, notional_from}
use infotact_python_project.Metrics.Latency.{sum, us}
use infotact_python_project.Monitor.{
  Monitor, WhaleEvent, EventType, OrderInfo, resting_order, matched_trade, whale_sweep, last_or,
  calculate_percentile, get_current_whale_threshold,
}
use mathlib.Core.List.{reverse}
use infotact_python_project.Monitor.Views.{last_n, seconds_since}

-- Without the name of the engine, and the statistics of the persistence worker.
pub record MarketState {ℓ} (P : Type ℓ) : Type ℓ where
  pub orders_count : ℕ
  pub trades_count : ℕ
  pub total_volume : ℕ
  pub total_notional : P
  pub vwap : Option P
  pub recent_trades : List (Trade P)
  pub recent_whale_events : List (WhaleEvent P)
  pub last_whale_sweep : Option (WhaleEvent P)
  pub last_order : Option (OrderInfo P)
  pub is_paused : Bool
  pub rate_target : ℕ
  pub elapsed_seconds : P
  pub active_whale_threshold : ℕ

-- `w.event_type == "WHALE_SWEEP"`
abbrev pub is_sweep_event : EventType → Bool
is_sweep_event resting_order = false
is_sweep_event matched_trade = false
is_sweep_event whale_sweep = true

-- `next((w for w in … if …), None)`
unfoldable pub first_sweep {ℓ} : {P : Type ℓ} → List (WhaleEvent P) → Option (WhaleEvent P)
first_sweep [] = none
first_sweep (w ∷ events) = if is_sweep_event w.event_type then some w else first_sweep events

module _ {ℓ κ} {P : Type ℓ} {G : Type κ} ⦃o : PriceOrder P⦄ (f : FloatOps P) where
  unfoldable pub get_market_state : ℕ → Bool → ℕ → Monitor P G → MarketState P
  get_market_state now_ns is_paused rate_target m = record {
    orders_count = m.engine.order_count;
    trades_count = length m.engine.trades;
    total_volume = traded_qty m.engine.trades;
    total_notional = notional_from f (f.float 0) m.engine.trades;
    vwap =
        if ltb 0 (traded_qty m.engine.trades)
        then some (
            f.div (notional_from f (f.float 0) m.engine.trades)
              (f.float (traded_qty m.engine.trades)))
        else none;
    recent_trades = last_n 8 m.engine.trades;
    recent_whale_events = last_n 6 m.whale_events;
    last_whale_sweep = first_sweep (reverse m.whale_events);
    last_order = m.last_order_info;
    is_paused = is_paused;
    rate_target = rate_target;
    elapsed_seconds = max_float (f.float 0) (seconds_since f now_ns m.start_time_ns);
    active_whale_threshold = get_current_whale_threshold f m;
  }

module _ {ℓ} {P : Type ℓ} (same : WhaleEvent P → WhaleEvent P → Bool) where
  -- `any(sweep is w for w in shown)`
  unfoldable pub is_among : WhaleEvent P → List (WhaleEvent P) → Bool
  is_among sweep [] = false
  is_among sweep (w ∷ shown) = same sweep w || is_among sweep shown

  unfoldable pub pin_sweep :
      Option (WhaleEvent P) → ℕ → List (WhaleEvent P) → List (WhaleEvent P) → List (WhaleEvent P)
  pin_sweep none n recent shown = shown
  pin_sweep (some sweep) n recent shown =
      if is_among sweep shown
      then shown
      else sweep ∷ (if ltb 1 n then last_n (n - 1) recent else [])

  -- A negative `n` is as 0.
  unfoldable pub select_whale_events : MarketState P → ℕ → List (WhaleEvent P)
  select_whale_events state n =
      if n == 0
      then []
      else pin_sweep state.last_whale_sweep n state.recent_whale_events
          (last_n n state.recent_whale_events)

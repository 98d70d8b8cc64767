-- ===== src/Monitor/Orders.antt =====
-- src/monitor/latency_monitor.py: the operations of `LatencyMonitor` that take orders: what
-- `step` and `add_custom_order` do with one, the search for sweeps, and the handing over of
-- trades.
use infotact_python_project.Prelude.{
  ℕ, suc, ◌+◌, ◌-◌, max, ◌&&◌, if◌then◌else◌, ltb, leb, Option, none, some, List, [], ◌∷◌, ◌++◌,
  length, take, drop,
}
use infotact_python_project.Float.{PriceOrder, FloatOps}
use infotact_python_project.Bytes.{bytes_eq}
use infotact_python_project.Processor.{buy_text}
use infotact_python_project.Engine
use infotact_python_project.Engine.{Order, Engine, Trade, buy, sell, add_order}
use infotact_python_project.TradeQueue
use infotact_python_project.TradeQueue.{Queue}
use infotact_python_project.TradeQueue.Events.{push_trade}
use infotact_python_project.Simulator
use infotact_python_project.Simulator.{Random, MockOrder, next_order}
use infotact_python_project.Monitor.{
  Monitor, WhaleEvent, OrderInfo, Times, Handover, Side, Tally, whale_sweep, matched_trade,
  append_bounded, trade_text, side_value, side_text, last_or, seen_price,
  get_current_whale_threshold, add_event, on_order_submitted, engine_trade_count,
}

module _ {ℓ} {P : Type ℓ} ⦃o : PriceOrder P⦄ (f : FloatOps P) where
  -- One round of the loop of `_detect_sweep`.
  unfoldable pub count_fill : Tally P → Trade P → Tally P
  count_fill c t = record {
    levels = if seen_price t.price c.levels then c.levels else c.levels ++ (t.price ∷ []);
    executed = c.executed + t.qty;
    notional = f.add c.notional (f.mul t.price (f.float t.qty));
  }

  unfoldable pub count_fills : Tally P → List (Trade P) → Tally P
  count_fills c [] = c
  count_fills c (t ∷ trades) = count_fills (count_fill c t) trades

  abbrev pub no_fills : Tally P
  no_fills = record { levels = []; executed = 0; notional = f.float 0 }

  abbrev pub sweep_event : OrderInfo P → P → List P → Tally P → WhaleEvent P
  sweep_event i first later c = record {
    event_type = whale_sweep;
    side = i.side;
    price = first;
    quantity = c.executed;
    notional = c.notional;
    order_id = some i.order_id;
    buy_id = none;
    sell_id = none;
    timestamp_ns = i.timestamp_ns;
    levels_cleared = suc (length later);
    price_end = some (last_or first later);
  }

  abbrev pub trade_event : ℕ → Trade P → WhaleEvent P
  trade_event now_ns t = record {
    event_type = matched_trade;
    side = trade_text;
    price = t.price;
    quantity = t.qty;
    notional = f.mul t.price (f.float t.qty);
    order_id = none;
    buy_id = some t.buy_id;
    sell_id = some t.sell_id;
    timestamp_ns = now_ns;
    levels_cleared = 0;
    price_end = none;
  }

  -- `push` of a trade; the queue drops its oldest event when it is full, so no push waits or
  -- raises.
  unfoldable pub push_to : Handover P → Trade P → Option (Queue P) → Option (Queue P)
  push_to h t none = none
  push_to h t (some q) = some (push_trade f h.stamped_ns h.enqueued_ns h.others [] t q).1

  abbrev pub custom_info : ℕ → Side → P → ℕ → Option ℕ → Times → OrderInfo P
  custom_info order_id side price quantity timestamp_ns times = record {
    order_id = order_id;
    side = side_text side;
    price = price;
    quantity = quantity;
    timestamp_ns = elim timestamp_ns [ none ↦ times.ts_ns | some t ↦ t ];
  }

  abbrev pub mock_info : MockOrder P → Times → OrderInfo P
  mock_info order times = record {
    order_id = order.order_id;
    side = order.side;
    price = order.price;
    quantity = order.quantity;
    timestamp_ns = times.ts_ns;
  }

  module _ {κ} {G : Type κ} where
    -- The last `if` of `_detect_sweep`. The guard on the length leaves no empty list to index.
    unfoldable pub report_sweep : OrderInfo P → List P → Tally P → Monitor P G → Monitor P G
    report_sweep i [] c m = m
    report_sweep i (first ∷ later) c m =
        if leb m.sweep_min_levels (suc (length later))
          && leb (get_current_whale_threshold f m) c.executed
        then add_event f (sweep_event i first later c) m
        else m

    -- `self.engine.get_trades()[n_before:n_after]`
    unfoldable pub new_trades : ℕ → Monitor P G → List (Trade P)
    new_trades n_before m = take (engine_trade_count f m - n_before) (drop n_before m.engine.trades)

    unfoldable pub detect_sweep : OrderInfo P → ℕ → Monitor P G → Monitor P G
    detect_sweep i n_before m =
        if ltb m.sweep_min_levels 1
        then m
        else if ltb (engine_trade_count f m - n_before) m.sweep_min_levels
        then m
        else report_sweep i (count_fills no_fills (new_trades n_before m)).levels
            (count_fills no_fills (new_trades n_before m)) m

    -- One round of the loop of `_sync_matched_trades_to_persistence`.
    unfoldable pub hand_over : ℕ → Handover P → Trade P → Monitor P G → Monitor P G
    hand_over thresh h t m = record m {
      whale_events =
          if leb thresh t.qty
          then append_bounded 50 m.whale_events (trade_event h.seen_ns t)
          else m.whale_events;
      trade_queue = push_to h t m.trade_queue;
    }

    -- The loop; a trade's surroundings go by its place on the tape.
    unfoldable pub hand_over_all :
        ℕ → (ℕ → Handover P) → ℕ → List (Trade P) → Monitor P G → Monitor P G
    hand_over_all thresh around i [] m = m
    hand_over_all thresh around i (t ∷ trades) m =
        hand_over_all thresh around (i + 1) trades (hand_over thresh (around i) t m)

    unfoldable pub sync_matched_trades : (ℕ → Handover P) → Monitor P G → Monitor P G
    sync_matched_trades around m =
        if ltb m.last_processed_trade_idx (engine_trade_count f m)
        then record (hand_over_all (get_current_whale_threshold f m) around
            m.last_processed_trade_idx (new_trades m.last_processed_trade_idx m) m) {
              last_processed_trade_idx = engine_trade_count f m;
            }
        else m

    -- The call of the engine, with the clock around it.
    unfoldable pub dispatch : OrderInfo P → ℕ → Times → Monitor P G → Monitor P G
    dispatch i side times m = record m {
      engine =
          add_order
            (record {
              order_id = i.order_id;
              side = side;
              price = i.price;
              quantity = i.quantity;
              timestamp = i.timestamp_ns;
            })
            m.engine;
      last_latency_ns = max 1 (times.t1 - times.t0);
      all_latencies_ns = m.all_latencies_ns ++ (max 1 (times.t1 - times.t0) ∷ []);
      rolling_latencies_ns =
          append_bounded m.rolling_window m.rolling_latencies_ns (max 1 (times.t1 - times.t0));
    }

    -- What `step` and `add_custom_order` do with an order, but for the handing over of trades.
    unfoldable pub submit : OrderInfo P → ℕ → Times → Monitor P G → Monitor P G
    submit i side times m =
        let noted = on_order_submitted f i (record m { last_order_info = some i }) in
        detect_sweep i (engine_trade_count f noted) (dispatch i side times noted)

    -- The result is that of `add_order`, the identifier.
    unfoldable pub add_custom_order :
        ℕ → Side → P → ℕ → Option ℕ → Times → (ℕ → Handover P) → Monitor P G → ℕ × Monitor P G
    add_custom_order order_id side price quantity timestamp_ns times around m = (
      order_id,
      sync_matched_trades around (
          submit (custom_info order_id side price quantity timestamp_ns times) (side_value side)
            times m),
    )

    module _ (r : Random P G) where
      -- One round of the loop of `step`: its latency, and the monitor.
      unfoldable pub step_order : Times → Monitor P G → Monitor P G
      step_order times m =
          let (order, simulator) = next_order f r (f.div (f.float 4) (f.float 100)) m.simulator in
          submit (mock_info order times) (if bytes_eq order.side buy_text then buy else sell) times
            (record m { simulator = simulator })

      unfoldable pub step_orders : List Times → Monitor P G → List ℕ × Monitor P G
      step_orders [] m = ([], m)
      step_orders (times ∷ later) m =
          let next = step_order times m in
          let (latencies, last) = step_orders later next in
          (max 1 (times.t1 - times.t0) ∷ latencies, last)

      -- The rounds are the readings given: at least one.
      unfoldable pub step :
          Times → List Times → (ℕ → Handover P) → Monitor P G → List ℕ × Monitor P G
      step times later around m =
          let (latencies, last) = step_orders (times ∷ later) m in
          (latencies, sync_matched_trades around last)

      -- `self.simulator.reset(seed=self.seed)` comes after `seed` is set.
      unfoldable pub reset : Option ℕ → ℕ → Monitor P G → Monitor P G
      reset new_seed now_ns m = record m {
        engine = Engine.init P;
        seed = elim new_seed [ none ↦ m.seed | some seed ↦ seed ];
        simulator =
            Simulator.reset f r (some (elim new_seed [ none ↦ m.seed | some seed ↦ seed ]))
              m.simulator;
        all_latencies_ns = [];
        rolling_latencies_ns = [];
        rolling_order_quantities = [];
        start_time_ns = now_ns;
        last_order_info = none;
        last_latency_ns = 0;
        last_processed_trade_idx = 0;
        whale_events = [];
        trade_queue = elim m.trade_queue [ none ↦ none | some q ↦ some (TradeQueue.clear q) ];
      }

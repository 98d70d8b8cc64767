-- ===== src/Monitor/Examples.antt =====
-- The theorems on the monitor's operations (src/monitor/latency_monitor.py) at concrete orders.
use infotact_python_project.Prelude.{
  ℕ, ◌+◌, ◌≤◌, true, false, if◌then◌else◌, Option, none, some, List, [], ◌∷◌, ◌≡◌, refl, arith,
}
use infotact_python_project.Float.{PriceOrder}
use infotact_python_project.Float.Cents.{numbers, number_ops}
use infotact_python_project.Engine.{
  Order, Engine, Trade, add_order, match_buy, match_loop, match_best, sort, insert, key_lt, crosses,
  rest_remainder, buy_trade,
}
use infotact_python_project.Engine.Fills.{volume}
use infotact_python_project.Simulator.Counter.{counter_of}
use infotact_python_project.Processor.{buy_text}
use infotact_python_project.Monitor
use infotact_python_project.Monitor.{
  Monitor, WhaleEvent, OrderInfo, Times, Handover, Side, EventType, whale_sweep, matched_trade,
  resting_order, init_queue, calculate_percentile, seen_price, add_event,
}
use infotact_python_project.Monitor.Orders.{
  count_fills, count_fill, no_fills, submit, sweep_event, dispatch, detect_sweep, report_sweep,
  new_trades,
}
use infotact_python_project.Monitor.Tracked.{HandsOver, IsValid}
use infotact_python_project.Monitor.Runs.{Call, adds, steps, resets, run, made_all, run_tracks}
use infotact_python_project.Monitor.Sweeps.{Distinct, traded_at}
use infotact_python_project.Monitor.Sweeps.Detect.{is_sweep}
use infotact_python_project.Monitor.Sweeps.Orders.{dispatched, submit_sweep}
use infotact_python_project.Monitor.Dashboard.{Round, new_dashboard, run_dashboard}
use infotact_python_project.Monitor.Dashboard.Driven.{Driven, dashboard_drives}

instance abbrev cents : PriceOrder ℕ
cents = numbers

abbrev times : ℕ → Times
times n = record { ts_ns = n; t0 = n + 1; t1 = n + 4 }

abbrev alone : ℕ → Handover ℕ
alone i = record { seen_ns = i; stamped_ns = i; enqueued_ns = i; others = λ q. q }

abbrev pub new_monitor : Monitor ℕ ℕ
new_monitor = Monitor.init number_ops (counter_of (λ n. n)) 7 10000 500 false 100 true 50 2 0

abbrev calls : List (Call ℕ)
calls =
    adds 1 (Side.numbered 1) 10000 600 none (times 10) alone
    ∷ steps (times 20) (times 30 ∷ []) alone
    ∷ resets none 40
    ∷ adds 2 (Side.named buy_text) 10100 700 (some 50) (times 50) alone
    ∷ []

run_tracks_example :
    IsValid (run number_ops (counter_of (λ n. n)) calls new_monitor)
    × HandsOver
        (made_all number_ops (counter_of (λ n. n)) calls new_monitor)
        (init_queue number_ops (counter_of (λ n. n)) true 50)
        (run number_ops (counter_of (λ n. n)) calls new_monitor).trade_queue
run_tracks_example =
    run_tracks number_ops (counter_of (λ n. n)) 7 500 100 50 2 0 10000 false true calls
      ((λ i q. refl), ((λ i q. refl), (tt, ((λ i q. refl), tt))))

-- Sales at two prices, and a purchase that clears both.
abbrev pub sale : ℕ → ℕ → ℕ → Order ℕ
sale order_id price quantity = record {
  order_id = order_id;
  side = 1;
  price = price;
  quantity = quantity;
  timestamp = order_id;
}

abbrev asks : Engine ℕ
asks = record {
  order_count = 2;
  buy_orders = [];
  sell_orders = sale 1 10100 300 ∷ sale 2 10000 400 ∷ [];
  trades = [];
}

abbrev watching : Monitor ℕ ℕ
watching = record new_monitor { engine = asks }

abbrev taker : OrderInfo ℕ
taker = record { order_id = 3; side = buy_text; price = 10100; quantity = 650; timestamp_ns = 60 }

abbrev fill : ℕ → ℕ → ℕ → Trade ℕ
fill sell_id price qty = record { buy_id = 3; sell_id = sell_id; price = price; qty = qty }

abbrev fills : List (Trade ℕ)
fills = fill 2 10000 400 ∷ fill 1 10100 250 ∷ []

abbrev taken : Monitor ℕ ℕ
taken = dispatched number_ops taker 0 (times 60) watching

submit_sweep_example :
    (levels : List ℕ) × ((count_fills number_ops (no_fills number_ops) fills).levels
      ≡ 10000 ∷ levels)
    × Distinct (count_fills number_ops (no_fills number_ops) fills).levels
    × ((p : ℕ)
        → seen_price p (count_fills number_ops (no_fills number_ops) fills).levels
          ≡ traded_at p fills)
    × ((count_fills number_ops (no_fills number_ops) fills).executed ≡ volume fills)
    × ((count_fills number_ops (no_fills number_ops) fills).executed ≤ 650)
    × (submit number_ops taker 0 (times 60) watching ≡ (
        if is_sweep number_ops taken (count_fills number_ops (no_fills number_ops) fills)
        then add_event number_ops
            (sweep_event number_ops taker 10000 levels
              (count_fills number_ops (no_fills number_ops) fills))
            taken
        else taken))
unfolding add_order match_buy match_loop match_best sort insert key_lt crosses rest_remainder
    buy_trade Monitor.init
submit_sweep_example =
    submit_sweep number_ops taker 0 (times 60) watching (fill 2 10000 400) (fill 1 10100 250 ∷ [])
      (omega arith) refl

-- The purchase is reported: 650 shares at two prices.
taker-reported :
    (submit number_ops taker 0 (times 60) watching).whale_events
    ≡ record {
      event_type = resting_order;
      side = buy_text;
      price = 10100;
      quantity = 650;
      notional = 6_565_000;
      order_id = some 3;
      buy_id = none;
      sell_id = none;
      timestamp_ns = 60;
      levels_cleared = 0;
      price_end = none;
    }
      ∷ record {
        event_type = whale_sweep;
        side = buy_text;
        price = 10000;
        quantity = 650;
        notional = 6_525_000;
        order_id = some 3;
        buy_id = none;
        sell_id = none;
        timestamp_ns = 60;
        levels_cleared = 2;
        price_end = some 10100;
      }
      ∷ []
unfolding submit Monitor.on_order_submitted Monitor.inspect_order
    Monitor.get_current_whale_threshold Monitor.add_event Monitor.append_bounded
    Monitor.engine_trade_count dispatch detect_sweep report_sweep new_trades count_fills count_fill
    Monitor.seen_price add_order match_buy match_loop match_best sort insert key_lt crosses
    rest_remainder buy_trade Monitor.init
taker-reported = refl

abbrev press_key : Option ℕ → Round ℕ
press_key key = record {
  is_due = true;
  key = key;
  times = times 10;
  around = alone;
  key_times = times 20;
  key_around = alone;
  reset_ns = 30;
}

abbrev rounds : List (Round ℕ)
rounds =
    press_key (some b'+')
    ∷ press_key (some b's')
    ∷ press_key (some b'r')
    ∷ press_key (some b'q')
    ∷ []

dashboard_drives_example :
    (1
      ≤ (run_dashboard number_ops
          (counter_of (λ n. n))
          none
          rounds
          (new_dashboard new_monitor 30)).target_rate)
    × ((run_dashboard number_ops
          (counter_of (λ n. n))
          none
          rounds
          (new_dashboard new_monitor 30)).target_rate
        ≤ 500)
    × Driven number_ops
        (counter_of (λ n. n))
        new_monitor
        (run_dashboard number_ops
          (counter_of (λ n. n))
          none
          rounds
          (new_dashboard new_monitor 30)).monitor
dashboard_drives_example =
    dashboard_drives number_ops (counter_of (λ n. n)) new_monitor 30 none rounds

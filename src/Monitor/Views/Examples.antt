-- ===== src/Monitor/Views/Examples.antt =====
-- The theorems on what the monitor shows (src/monitor/latency_monitor.py) at a concrete book and
-- concrete events.
use infotact_python_project.Prelude.{
  ℕ, ◌+◌, ◌≤◌, Bool, true, false, none, List, [], ◌∷◌, length, ◌≡◌, refl, arith, All, ok, err, pos,
  negsuc,
}
use infotact_python_project.Float.{PriceOrder}
use infotact_python_project.Float.Cents.{numbers, number_ops}
use infotact_python_project.Engine.{Order, Engine, init, add_orders, get_order_book_snapshot}
use infotact_python_project.Engine.Fills.{volume}
use infotact_python_project.Processor.{buy_text}
use infotact_python_project.Monitor.{Monitor, WhaleEvent, EventType, whale_sweep, matched_trade}
use infotact_python_project.Monitor.Book.{
  OrderBookTop, negative_depth, top_of, spread_of, get_top_of_book,
}
use infotact_python_project.Monitor.Book.Levels.{Shows, get_top_of_book_lem, never_crossed}
use infotact_python_project.Monitor.State.{get_market_state, select_whale_events}
use infotact_python_project.Monitor.State.Pinned.{Among, latest_sweep_shown}
use infotact_python_project.Monitor.Examples.{new_monitor, sale}

instance abbrev cents : PriceOrder ℕ
cents = numbers

abbrev stream : List (Order ℕ)
stream =
    sale 1 10100 300
    ∷ sale 2 10000 400
    ∷ record { order_id = 3; side = 0; price = 10000; quantity = 500; timestamp = 3 }
    ∷ []

abbrev after : Engine ℕ
after = add_orders stream (init ℕ)

abbrev top : OrderBookTop ℕ
top =
    top_of number_ops 5 after
      (spread_of number_ops (get_order_book_snapshot after).0 (get_order_book_snapshot after).1)

never_crossed_example :
    (top.is_crossed ≡ false)
    × (top.total_bid_qty + volume after.trades ≡ 500)
    × (top.total_ask_qty + volume after.trades ≡ 700)
unfolding get_top_of_book
never_crossed_example = never_crossed number_ops stream 5 top refl

get_top_of_book_lem_example :
    ((t : OrderBookTop ℕ) × (get_top_of_book number_ops (pos 5) after ≡ ok t) × Shows 5 after t)
    × ((n : ℕ) → get_top_of_book number_ops (negsuc n) after ≡ err negative_depth)
get_top_of_book_lem_example = get_top_of_book_lem number_ops 5 after

-- A sweep followed by two large trades, of which one event is shown.
abbrev event : EventType → ℕ → WhaleEvent ℕ
event event_type n = record {
  event_type = event_type;
  side = buy_text;
  price = 10000;
  quantity = n;
  notional = 0;
  order_id = none;
  buy_id = none;
  sell_id = none;
  timestamp_ns = n;
  levels_cleared = 0;
  price_end = none;
}

abbrev events : List (WhaleEvent ℕ)
events = event whale_sweep 1 ∷ event matched_trade 2 ∷ event matched_trade 3 ∷ []

-- The sweep is compared with the two later events only, which are other objects.
abbrev never : WhaleEvent ℕ → WhaleEvent ℕ → Bool
never a b = false

never-identical : (a b : WhaleEvent ℕ) → never a b ≡ true → a ≡ b
never-identical a b h = absurd (cc)

abbrev swept : Monitor ℕ ℕ
swept = record new_monitor { whale_events = events }

latest_sweep_shown_example :
    Among
      (event whale_sweep 1)
      (select_whale_events never (get_market_state number_ops 9 false 30 swept) 2)
    × (length (select_whale_events never (get_market_state number_ops 9 false 30 swept) 2) ≤ 2)
    × All
        (λ w. Among w events)
        (select_whale_events never (get_market_state number_ops 9 false 30 swept) 2)
latest_sweep_shown_example =
    latest_sweep_shown never never-identical number_ops swept 9 2 30 false [] (event whale_sweep 1)
      (event matched_trade 2 ∷ event matched_trade 3 ∷ []) (omega arith) refl refl
      (refl, (refl, tt))

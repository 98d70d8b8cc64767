-- ===== src/Compiled/Depth.antt =====
-- What src/engine/matching_engine.pyx shows of its book and its trades.
use infotact_python_project.Prelude.{
  ℕ, ◌+◌, ◌%◌, ◌^◌, if◌then◌else◌, leb, Option, none, some, List, [], ◌∷◌, ◌++◌, length, take, drop,
  sorted, Result, ok, err, ℤ, pos, negsuc,
}
use infotact_python_project.Float.{PriceOrder, same_price}
use infotact_python_project.Engine.{Order, Trade, first_price}
use infotact_python_project.Metrics.{depth_from, item_le}
use infotact_python_project.Compiled.{MatchingEngine, Error, value_error}

-- The dictionary that `get_book_depth` returns.
pub record BookDepth {ℓ} (P : Type ℓ) : Type ℓ where
  pub bid_levels : List (P × ℕ)
  pub ask_levels : List (P × ℕ)
  pub total_bid_qty : ℕ
  pub total_ask_qty : ℕ
  pub bid_order_count : ℕ
  pub ask_order_count : ℕ

-- The variables of a loop of `get_book_depth`: the levels that are done, and the open one.
pub record Levels {ℓ} (P : Type ℓ) : Type ℓ where
  pub done : List (P × ℕ)
  pub open_level : Option (P × ℕ)

module _ {ℓ} {P : Type ℓ} where
  pub get_trades_since : ℕ → MatchingEngine P → List (Trade P)
  get_trades_since start e = drop start e.trades

  pub get_order_book_snapshot : MatchingEngine P → Option P × Option P
  get_order_book_snapshot e = (first_price e.buy_orders, first_price e.sell_orders)

  pub get_order_book_counts : MatchingEngine P → ℕ × ℕ
  get_order_book_counts e = (length e.buy_orders, length e.sell_orders)

  -- A sum of `uint64_t`s, from `total` on.
  unfoldable pub total_quantity : ℕ → List (Order P) → ℕ
  total_quantity total [] = total
  total_quantity total (order ∷ orders) = total_quantity ((total + order.quantity) % 2 ^ 64) orders

  -- A level is begun if there is room for it.
  unfoldable pub begin_level : ℕ → Order P → List (P × ℕ) → Levels P
  begin_level max_levels order done =
      if leb max_levels (length done)
      then record { done = done; open_level = none }
      else record { done = done; open_level = some (order.price, order.quantity) }

  -- What follows the loop.
  unfoldable pub close_level : Levels P → List (P × ℕ)
  close_level s = elim s.open_level [ none ↦ s.done | some level ↦ s.done ++ (level ∷ []) ]

module _ {ℓ} {P : Type ℓ} ⦃o : PriceOrder P⦄ where
  -- One round of a loop of `get_book_depth`.
  unfoldable pub count_order : ℕ → Order P → List (P × ℕ) → Option (P × ℕ) → Levels P
  count_order max_levels order done none = begin_level max_levels order done
  count_order max_levels order done (some (level_price, level_qty)) =
      if same_price order.price level_price
      then record {
        done = done;
        open_level = some (level_price, (level_qty + order.quantity) % 2 ^ 64);
      }
      else begin_level max_levels order (done ++ ((level_price, level_qty) ∷ []))

  unfoldable pub count_orders : ℕ → List (Order P) → Levels P → Levels P
  count_orders max_levels [] s = s
  count_orders max_levels (order ∷ orders) s =
      count_orders max_levels orders (count_order max_levels order s.done s.open_level)

  unfoldable pub side_levels : ℕ → List (Order P) → List (P × ℕ)
  side_levels max_levels orders =
      close_level (count_orders max_levels orders (record { done = []; open_level = none }))

  -- A negative `max_levels` is as 0.
  unfoldable pub get_book_depth : ℕ → MatchingEngine P → BookDepth P
  get_book_depth max_levels e = record {
    bid_levels = side_levels max_levels e.buy_orders;
    ask_levels = side_levels max_levels e.sell_orders;
    total_bid_qty = total_quantity 0 e.buy_orders;
    total_ask_qty = total_quantity 0 e.sell_orders;
    bid_order_count = length e.buy_orders;
    ask_order_count = length e.sell_orders;
  }

  -- The dictionaries have one item for each price; the bids are sorted in reverse.
  pub get_order_book_depth : ℤ → MatchingEngine P → Result Error (List (P × ℕ) × List (P × ℕ))
  get_order_book_depth (negsuc n) e = err value_error
  get_order_book_depth (pos depth) e = ok (
    take depth (sorted (λ a b. item_le b a) (depth_from [] e.buy_orders)),
    take depth (sorted item_le (depth_from [] e.sell_orders)),
  )

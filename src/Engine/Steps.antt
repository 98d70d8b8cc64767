-- ===== src/Engine/Steps.antt =====
-- `add_order` (src/engine/matching_engine.py) with its loop replaced by the walk down the sorted
-- book.
use infotact_python_project.Prelude.{suc, ◌+◌, true, false, ◌==◌, ◌++◌, ◌≡◌, arith, length}
use infotact_python_project.Float.{PriceOrder}
use infotact_python_project.Engine.{
  Order, Engine, Matching, buy, buy_trade, sell_trade, sort, rest_remainder, match_buy, match_sell,
  add_order, ge,
}
use infotact_python_project.Engine.Sweep.{sweep, match_loop-eq-sweep}

module _ {ℓ} {P : Type ℓ} ⦃o : PriceOrder P⦄ where
  abbrev pub buy_walk : Order P → Engine P → Matching P
  buy_walk order e = sweep o.le buy_trade order (sort o.le e.sell_orders)

  abbrev pub sell_walk : Order P → Engine P → Matching P
  sell_walk order e = sweep ge sell_trade order (sort ge e.buy_orders)

  abbrev pub after_buy : Order P → Engine P → Engine P
  after_buy order e = record {
    order_count = e.order_count + 1;
    buy_orders = rest_remainder (buy_walk order e).order e.buy_orders;
    sell_orders = (buy_walk order e).book;
    trades = e.trades ++ (buy_walk order e).trades;
  }

  abbrev pub after_sell : Order P → Engine P → Engine P
  after_sell order e = record {
    order_count = e.order_count + 1;
    buy_orders = (sell_walk order e).book;
    sell_orders = rest_remainder (sell_walk order e).order e.sell_orders;
    trades = e.trades ++ (sell_walk order e).trades;
  }

  pub add_order-after_buy :
      (order : Order P) (e : Engine P)
      → (order.side == buy) ≡ true
      → add_order order e ≡ after_buy order e
  unfolding add_order match_buy
  add_order-after_buy order e h = rw (
    h,
    match_loop-eq-sweep o.le buy_trade (suc (length (sort o.le e.sell_orders))) order
        (sort o.le e.sell_orders) e.trades (omega arith),
  )

  pub add_order-after_sell :
      (order : Order P) (e : Engine P)
      → (order.side == buy) ≡ false
      → add_order order e ≡ after_sell order e
  unfolding add_order match_sell
  add_order-after_sell order e h = rw (
    h,
    match_loop-eq-sweep ge sell_trade (suc (length (sort ge e.buy_orders))) order
        (sort ge e.buy_orders) e.trades (omega arith),
  )

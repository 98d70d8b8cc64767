-- ===== src/Baseline/Equivalent.antt =====
-- The baseline matcher of src/model/baseline_matcher.py and the engine of
-- src/engine/matching_engine.py do the same.
use infotact_python_project.Prelude.{
  ℕ, suc, ◌+◌, Bool, true, false, List, [], ◌∷◌, length, length-map, ◌≡◌, refl, sym, ap, ap₂, ◌∙◌,
  arith, Bool-cases, inl, inr,
}
use infotact_python_project.Bytes.{bytes_eq}
use infotact_python_project.Float.{PriceOrder}
use infotact_python_project.Engine
use infotact_python_project.Engine.{
  Trade, Engine, buy, sell, init, buy_trade, sell_trade, key_lt, crosses, match_best, match_loop,
  rest_remainder,
}
use infotact_python_project.Baseline.{
  Order, OrderBook, Matching, new_book, buy_side, trade_of_buy, trade_of_sell, sort, fill_loop,
  match_buy, match_sell, add_order, add_orders,
}
use infotact_python_project.Baseline.Rounds.{
  loop_same, engine_order, engine_orders, engine_of, engine_matching, rest_same, sort_same,
  buy_same, sell_same,
}

module _ {ℓ} {P : Type ℓ} ⦃o : PriceOrder P⦄ where
  -- The engine's loop on a sorted side of the book.
  walk_same :
      (le : P → P → Bool) (trade : Order P → Order P → ℕ → Trade P)
      (engine_trade : Engine.Order P → Engine.Order P → ℕ → Trade P)
      (trade_same : (a b : Order P) (n : ℕ)
        → engine_trade (engine_order a) (engine_order b) n ≡ trade a b n)
      (order : Order P) (side : List (Order P)) (trades : List (Trade P))
      → let book = sort le side in
        let engine_book = Engine.sort le (engine_orders side) in
        engine_matching (
          fill_loop le trade
            (suc (length book))
            (record { order = order; book = book; trades = trades }))
        ≡ match_loop le engine_trade
            (suc (length engine_book))
            (record { order = engine_order order; book = engine_book; trades = trades })
  walk_same le trade engine_trade trade_same order side trades =
      loop_same le trade engine_trade trade_same (suc (length (sort le side))) _
      ∙ ap₂
          (λ n book.
            match_loop le engine_trade (suc n)
              (record { order = engine_order order; book = book; trades = trades }))
          (sym (length-map engine_order (sort le side)) ∙ ap length (sort_same le side))
          (sort_same le side)

  match_buy_same :
      (order : Order P) (b : OrderBook P) (n : ℕ)
      → engine_of n (match_buy order b) ≡ Engine.match_buy (engine_order order) (engine_of n b)
  unfolding match_buy Engine.match_buy
  match_buy_same order b n =
      ap
        (λ orders. record {
          order_count = n;
          buy_orders = orders;
          sell_orders = engine_orders m.book;
          trades = m.trades;
        })
        (rest_same m.order b.buy_orders)
      ∙ ap
          (λ (e : Engine.Matching P). record {
            order_count = n;
            buy_orders = rest_remainder e.order (engine_orders b.buy_orders);
            sell_orders = e.book;
            trades = e.trades;
          })
          (walk_same o.le trade_of_buy buy_trade buy_same order b.sell_orders b.trades)
    where
      m : Matching P
      m =
          fill_loop o.le trade_of_buy (suc (length (sort o.le b.sell_orders)))
            (record { order = order; book = sort o.le b.sell_orders; trades = b.trades })

  match_sell_same :
      (order : Order P) (b : OrderBook P) (n : ℕ)
      → engine_of n (match_sell order b) ≡ Engine.match_sell (engine_order order) (engine_of n b)
  unfolding match_sell Engine.match_sell
  match_sell_same order b n =
      ap
        (λ orders. record {
          order_count = n;
          buy_orders = engine_orders m.book;
          sell_orders = orders;
          trades = m.trades;
        })
        (rest_same m.order b.sell_orders)
      ∙ ap
          (λ (e : Engine.Matching P). record {
            order_count = n;
            buy_orders = e.book;
            sell_orders = rest_remainder e.order (engine_orders b.sell_orders);
            trades = e.trades;
          })
          (walk_same (λ x y. o.le y x) trade_of_sell sell_trade sell_same order b.buy_orders
            b.trades)
    where
      m : Matching P
      m =
          fill_loop (λ x y. o.le y x) trade_of_sell
            (suc (length (sort (λ x y. o.le y x) b.buy_orders)))
            (record {
              order = order;
              book = sort (λ x y. o.le y x) b.buy_orders;
              trades = b.trades;
            })

  bought_same :
      (order : Order P) (b : OrderBook P) (n : ℕ)
      → bytes_eq order.side buy_side ≡ true
      → Engine.add_order (engine_order order) (engine_of n b)
        ≡ Engine.match_buy (engine_order order) (engine_of (n + 1) b)
  unfolding Engine.add_order
  bought_same order b n e = rw e refl

  sold_same :
      (order : Order P) (b : OrderBook P) (n : ℕ)
      → bytes_eq order.side buy_side ≡ false
      → Engine.add_order (engine_order order) (engine_of n b)
        ≡ Engine.match_sell (engine_order order) (engine_of (n + 1) b)
  unfolding Engine.add_order
  sold_same order b n e = rw e refl

  add_order_same :
      (order : Order P) (b : OrderBook P) (n : ℕ)
      → engine_of (n + 1) (add_order order b)
        ≡ Engine.add_order (engine_order order) (engine_of n b)
  unfolding add_order
  add_order_same order b n = elim (Bool-cases (bytes_eq order.side buy_side)) [
    | inl e ↦
        ap (engine_of (n + 1)) (rw (e, add_order))
        ∙ match_buy_same order b (n + 1)
        ∙ sym (bought_same order b n e)
    | inr e ↦
        ap (engine_of (n + 1)) (rw (e, add_order))
        ∙ match_sell_same order b (n + 1)
        ∙ sym (sold_same order b n e)
  ]

  from_same :
      (orders : List (Order P)) (b : OrderBook P) (n : ℕ)
      → Engine.add_orders (engine_orders orders) (engine_of n b)
        ≡ engine_of (n + length orders) (add_orders orders b)
  unfolding add_orders Engine.add_orders
  from_same [] b n = ap (λ k. engine_of k b) (omega arith)
  from_same (order ∷ orders) b n =
      ap (Engine.add_orders (engine_orders orders)) (sym (add_order_same order b n))
      ∙ from_same orders (add_order order b) (n + 1)
      ∙ ap (λ k. engine_of k (add_orders orders (add_order order b))) (omega arith)

  -- For any stream of orders, the engine that got them has the book and the trades of the baseline
  -- matcher that got them, order for order and in the same order, and has counted them.
  pub baseline_equivalent :
      (orders : List (Order P))
      → Engine.add_orders (engine_orders orders) (init P)
        ≡ engine_of (length orders) (add_orders orders (new_book P))
  unfolding init new_book
  baseline_equivalent orders =
      from_same orders (new_book P) 0
      ∙ ap (λ k. engine_of k (add_orders orders (new_book P))) (omega arith)

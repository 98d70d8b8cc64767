-- ===== src/Compiled/Matched.antt =====
-- The compiled engine of src/engine/matching_engine.pyx and the reference of
-- src/engine/matching_engine.py: the same trades, and the same book but for its order in memory.
use infotact_python_project.Prelude.{
  ℕ, zero, suc, ◌+◌, min, Bool, true, false, ltb, ◌==◌, List, [], ◌∷◌, ◌++◌, length, ◌≡◌, refl, sym,
  ap, ◌∙◌, arith, Bool-cases, inl, inr,
}
use infotact_python_project.Float.{PriceOrder}
use infotact_python_project.Engine
use infotact_python_project.Engine.{
  Order, Engine, Trade, Matching, buy, sell, buy_trade, sell_trade, sort, match_best, match_loop,
  crosses, rest_remainder, init, ge,
}
use infotact_python_project.Engine.Sorting.{sort-IsSorted, dual}
use infotact_python_project.Engine.Fills.{sweep-IsSorted}
use infotact_python_project.Engine.Sweep.{sweep, match_loop-eq-sweep}
use infotact_python_project.Engine.Steps.{
  buy_walk, sell_walk, add_order-after_buy, add_order-after_sell,
}
use infotact_python_project.Compiled.{
  MatchingEngine, matched_quantity, rest_order, fill, fill_all, match_buy, match_sell, accept,
}
use infotact_python_project.Compiled.Insertion.{sort-append_one, sort-sorted}

module _ {ℓ} {P : Type ℓ} where
  matched_quantity-min : (a b : Order P) → matched_quantity a b ≡ min a.quantity b.quantity
  unfolding matched_quantity
  matched_quantity-min a b = ground arith

  module _ (le : P → P → Bool) (trade : Order P → Order P → ℕ → Trade P) where
    fill-match_best :
        (order : Order P) (book : List (Order P)) (trades : List (Trade P))
        → fill le trade order book trades ≡ match_best le trade order book trades
    unfolding fill match_best
    fill-match_best order [] trades = refl
    fill-match_best order (best ∷ rest) trades = rw (matched_quantity-min order best) refl

    fill_all-match_loop : (n : ℕ) (m : Matching P) → fill_all le trade n m ≡ match_loop le trade n m
    unfolding fill_all match_loop
    fill_all-match_loop zero m = refl
    fill_all-match_loop (suc n) m = elim (Bool-cases (crosses le m.order m.book)) [
      | inl e ↦
          rw (e, fill_all, match_loop)
            (fill_all-match_loop n (fill le trade m.order m.book m.trades)
              ∙ ap (match_loop le trade n) (fill-match_best m.order m.book m.trades))
      | inr e ↦ rw (e, fill_all, match_loop) refl
    ]

    -- The whole loop is the walk down the book.
    walked :
        (order : Order P) (book : List (Order P)) (trades : List (Trade P))
        → fill_all le trade
            (suc (length book))
            (record { order = order; book = book; trades = trades })
          ≡ record (sweep le trade order book) {
            trades = trades ++ (sweep le trade order book).trades;
          }
    walked order book trades =
        fill_all-match_loop (suc (length book)) _
        ∙ match_loop-eq-sweep le trade (suc (length book)) order book trades (omega arith)

module _ {ℓ} {P : Type ℓ} ⦃o : PriceOrder P⦄ where
  -- The two engines agree: the compiled one has the sides sorted.
  pub record Agrees (c : MatchingEngine P) (e : Engine P) : Type ℓ where
    pub same_count : c.order_count ≡ e.order_count
    pub same_buys : c.buy_orders ≡ sort ge e.buy_orders
    pub same_sells : c.sell_orders ≡ sort o.le e.sell_orders
    pub same_trades : c.trades ≡ e.trades

rest_order-sort {ℓ} :
    {P : Type ℓ} (q : PriceOrder P) (order : Order P) (own : List (Order P))
    → rest_order q.le order (sort q.le own) ≡ sort q.le (rest_remainder order own)
unfolding rest_order rest_remainder
rest_order-sort q order own = elim (Bool-cases (ltb 0 order.quantity)) [
  | inl e ↦ rw e (sym (sort-append_one q own order))
  | inr e ↦ rw e refl
]

module _ {ℓ} {P : Type ℓ} ⦃o : PriceOrder P⦄ where
  accept-buy :
      (order : Order P) (c : MatchingEngine P)
      → (order.side == buy) ≡ true
      → accept order c ≡ record {
        order_count = c.order_count + 1;
        buy_orders = rest_order ge (sweep o.le buy_trade order c.sell_orders).order c.buy_orders;
        sell_orders = (sweep o.le buy_trade order c.sell_orders).book;
        trades = c.trades ++ (sweep o.le buy_trade order c.sell_orders).trades;
      }
  unfolding accept match_buy
  accept-buy order c h = rw (h, walked o.le buy_trade order c.sell_orders c.trades) refl

  accept-sell :
      (order : Order P) (c : MatchingEngine P)
      → (order.side == buy) ≡ false
      → accept order c ≡ record {
        order_count = c.order_count + 1;
        buy_orders = (sweep ge sell_trade order c.buy_orders).book;
        sell_orders = rest_order o.le (sweep ge sell_trade order c.buy_orders).order c.sell_orders;
        trades = c.trades ++ (sweep ge sell_trade order c.buy_orders).trades;
      }
  unfolding accept match_sell
  accept-sell order c h = rw (h, walked ge sell_trade order c.buy_orders c.trades) refl

  pub accept-Agrees :
      (order : Order P) (c : MatchingEngine P) (e : Engine P)
      → Agrees c e
      → Agrees (accept order c) (Engine.add_order order e)
  accept-Agrees order c e a = elim (Bool-cases (order.side == buy)) [
    | inl h ↦
        rw (accept-buy order c h, add_order-after_buy order e h)
          (record {
            same_count = ap (λ n. n + 1) a.same_count;
            same_buys =
                rw (a.same_sells, a.same_buys)
                  (rest_order-sort (dual o) (buy_walk order e).order e.buy_orders);
            same_sells = rw (a.same_sells) (
                sym (
                  sort-sorted o _
                    (sweep-IsSorted o buy_trade order _ (sort-IsSorted o e.sell_orders))));
            same_trades = rw (a.same_sells, a.same_trades) refl;
          })
    | inr h ↦
        rw (accept-sell order c h, add_order-after_sell order e h)
          (record {
            same_count = ap (λ n. n + 1) a.same_count;
            same_buys = rw (a.same_buys) (
                sym (
                  sort-sorted (dual o) _ (
                    sweep-IsSorted (dual o) sell_trade order _
                      (sort-IsSorted (dual o) e.buy_orders))));
            same_sells =
                rw (a.same_buys, a.same_sells)
                  (rest_order-sort o (sell_walk order e).order e.sell_orders);
            same_trades = rw (a.same_buys, a.same_trades) refl;
          })
  ]

-- ===== src/Baseline/Rounds.antt =====
-- The loops of src/model/baseline_matcher.py, round for round beside those of the engine.
use infotact_python_project.Prelude.{
  ℕ, zero, suc, ◌-◌, min, Bool, true, false, if◌then◌else◌, ltb, ◌==◌, List, [], ◌∷◌, map,
  map-append, ◌≡◌, refl, sym, ap, ◌∙◌, Bool-cases, inl, inr,
}
use infotact_python_project.Bytes.{bytes_eq}
use infotact_python_project.Engine
use infotact_python_project.Engine.{
  Trade, Engine, buy, sell, init, buy_trade, sell_trade, key_lt, crosses, match_best, match_loop,
  rest_remainder,
}
use infotact_python_project.Baseline.{
  Order, OrderBook, Matching, buy_side, trade_of_buy, trade_of_sell, rest_in_book, goes_first,
  insert, sort, matches, fill_best, fill_loop,
}

module _ {ℓ} {P : Type ℓ} where
  -- The order as the engine takes it.
  abbrev pub engine_order : Order P → Engine.Order P
  engine_order o = record {
    order_id = o.order_id;
    side = if bytes_eq o.side buy_side then buy else sell;
    price = o.price;
    quantity = o.qty;
    timestamp = o.timestamp;
  }

  abbrev pub engine_orders : List (Order P) → List (Engine.Order P)
  engine_orders = map engine_order

  -- The engine that holds a book, after so many orders.
  abbrev pub engine_of : ℕ → OrderBook P → Engine P
  engine_of n b = record {
    order_count = n;
    buy_orders = engine_orders b.buy_orders;
    sell_orders = engine_orders b.sell_orders;
    trades = b.trades;
  }

  abbrev pub engine_matching : Matching P → Engine.Matching P
  engine_matching m = record {
    order = engine_order m.order;
    book = engine_orders m.book;
    trades = m.trades;
  }

  pub rest_same :
      (order : Order P) (own : List (Order P))
      → engine_orders (rest_in_book order own)
        ≡ rest_remainder (engine_order order) (engine_orders own)
  unfolding rest_in_book rest_remainder
  rest_same order own = elim (Bool-cases (ltb 0 order.qty)) [
    | inl e ↦ rw e (map-append engine_order own (order ∷ []))
    | inr e ↦ rw e refl
  ]

  module _ (le : P → P → Bool) where
    key_same : (a b : Order P) → key_lt le (engine_order a) (engine_order b) ≡ goes_first le a b
    unfolding key_lt goes_first
    key_same a b = refl

    insert_same :
        (a : Order P) (bs : List (Order P))
        → engine_orders (insert le a bs) ≡ Engine.insert le (engine_order a) (engine_orders bs)
    unfolding insert Engine.insert
    insert_same a [] = refl
    insert_same a (b ∷ bs) = elim (Bool-cases (goes_first le b a)) [
      | inl e ↦ rw (key_same b a, e) (ap (◌∷◌ (engine_order b)) (insert_same a bs))
      | inr e ↦ rw (key_same b a, e) refl
    ]

    pub sort_same :
        (bs : List (Order P)) → engine_orders (sort le bs) ≡ Engine.sort le (engine_orders bs)
    unfolding sort Engine.sort
    sort_same [] = refl
    sort_same (a ∷ bs) =
        insert_same a (sort le bs) ∙ ap (Engine.insert le (engine_order a)) (sort_same bs)

    matches_same :
        (order : Order P) (book : List (Order P))
        → crosses le (engine_order order) (engine_orders book) ≡ matches le order book
    unfolding crosses matches
    matches_same order [] = refl
    matches_same order (best ∷ rest) = refl

    module _ (trade : Order P → Order P → ℕ → Trade P)
        (engine_trade : Engine.Order P → Engine.Order P → ℕ → Trade P)
        (trade_same : (a b : Order P) (n : ℕ)
          → engine_trade (engine_order a) (engine_order b) n ≡ trade a b n) where
      best_same :
          (order : Order P) (book : List (Order P)) (trades : List (Trade P))
          → engine_matching (fill_best le trade order book trades)
            ≡ match_best le engine_trade (engine_order order) (engine_orders book) trades
      unfolding fill_best match_best
      best_same order [] trades = refl
      best_same order (best ∷ rest) trades =
          elim (Bool-cases (best.qty - min order.qty best.qty == 0)) [
            | inl e ↦ rw (trade_same order best (min order.qty best.qty), e) refl
            | inr e ↦ rw (trade_same order best (min order.qty best.qty), e) refl
          ]

      -- One test of each loop.
      fill_on :
          (n : ℕ) (m : Matching P)
          → matches le m.order m.book ≡ true
          → engine_matching (fill_loop le trade (suc n) m)
            ≡ engine_matching (fill_loop le trade n (fill_best le trade m.order m.book m.trades))
      unfolding fill_loop
      fill_on n m e = ap engine_matching (rw (e, fill_loop) refl)

      fill_off :
          (n : ℕ) (m : Matching P)
          → matches le m.order m.book ≡ false
          → engine_matching (fill_loop le trade (suc n) m) ≡ engine_matching m
      unfolding fill_loop
      fill_off n m e = ap engine_matching (rw (e, fill_loop) refl)

      match_on :
          (n : ℕ) (m : Matching P)
          → crosses le (engine_order m.order) (engine_orders m.book) ≡ true
          → match_loop le engine_trade (suc n) (engine_matching m)
            ≡ match_loop le engine_trade n
                (match_best le engine_trade (engine_order m.order) (engine_orders m.book) m.trades)
      unfolding match_loop
      match_on n m e = rw (e, match_loop)

      match_off :
          (n : ℕ) (m : Matching P)
          → crosses le (engine_order m.order) (engine_orders m.book) ≡ false
          → match_loop le engine_trade (suc n) (engine_matching m) ≡ engine_matching m
      unfolding match_loop
      match_off n m e = rw (e, match_loop)

      pub loop_same :
          (n : ℕ) (m : Matching P)
          → engine_matching (fill_loop le trade n m)
            ≡ match_loop le engine_trade n (engine_matching m)
      unfolding fill_loop match_loop
      loop_same zero m = refl
      loop_same (suc n) m = elim (Bool-cases (matches le m.order m.book)) [
        | inl e ↦
            fill_on n m e
            ∙ (loop_same n (fill_best le trade m.order m.book m.trades)
                ∙ ap (match_loop le engine_trade n) (best_same m.order m.book m.trades))
            ∙ sym (match_on n m (matches_same m.order m.book ∙ e))
        | inr e ↦ fill_off n m e ∙ sym (match_off n m (matches_same m.order m.book ∙ e))
      ]

  pub buy_same :
      (a b : Order P) (n : ℕ) → buy_trade (engine_order a) (engine_order b) n ≡ trade_of_buy a b n
  unfolding buy_trade trade_of_buy
  buy_same a b n = refl

  pub sell_same :
      (a b : Order P) (n : ℕ) → sell_trade (engine_order a) (engine_order b) n ≡ trade_of_sell a b n
  unfolding sell_trade trade_of_sell
  sell_same a b n = refl

-- ===== src/Metrics.antt =====
-- `OrderBookAnalytics` of src/analysis/metrics.py: read-only views of the order book and of the
-- trades; Latency has the class of the latencies.
pub mod Latency
pub mod Depth
pub mod Best
mod Examples
use infotact_python_project.Prelude.{
  ℕ, suc, ◌+◌, ◌-◌, ◌≡◌, min, max, Bool, true, false, ◌&&◌, if◌then◌else◌, ltb, leb, ◌==◌, Option,
  none, some, List, [], ◌∷◌, ◌++◌, map, length, filter, get_or, sorted,
}
use infotact_python_project.Float.{PriceOrder, FloatOps, less, same_price, max_float, min_float}
use infotact_python_project.Engine.{Order, Engine, Trade}

pub record BookSnapshot {ℓ} (P : Type ℓ) : Type ℓ where
  pub best_bid : Option P
  pub best_ask : Option P
  pub spread : Option P
  pub mid : Option P
  pub bid_depth : ℕ
  pub ask_depth : ℕ
  pub bid_qty : ℕ
  pub ask_qty : ℕ

-- The dictionary of `trade_stats`.
pub record TradeStats {ℓ} (P : Type ℓ) : Type ℓ where
  pub count : ℕ
  pub total_qty : ℕ
  pub vwap : Option P
  pub min_price : Option P
  pub max_price : Option P

module _ {ℓ} {P : Type ℓ} where
  -- `_qty` of the orders of a side, added up.
  abbrev pub total_qty : List (Order P) → ℕ
  total_qty [] = 0
  total_qty (order ∷ orders) = order.quantity + total_qty orders

  abbrev pub traded_qty : List (Trade P) → ℕ
  traded_qty [] = 0
  traded_qty (t ∷ trades) = t.qty + traded_qty trades

  unfoldable pub whale_trades : List (Trade P) → ℕ → List (Trade P)
  whale_trades trades threshold_qty = filter (λ t. leb threshold_qty t.qty) trades

  pub spread_history : List (BookSnapshot P) → List (Option P)
  spread_history = map (λ s. s.spread)

module _ {ℓ} {P : Type ℓ} ⦃o : PriceOrder P⦄ where
  -- The highest of a price and those of the orders, as `max` finds it; and the lowest.
  unfoldable pub highest : P → List (Order P) → P
  highest p [] = p
  highest p (order ∷ orders) = highest (max_float p order.price) orders

  unfoldable pub lowest : P → List (Order P) → P
  lowest p [] = p
  lowest p (order ∷ orders) = lowest (min_float p order.price) orders

  -- `default=None`
  unfoldable pub max_price : List (Order P) → Option P
  max_price [] = none
  max_price (order ∷ orders) = some (highest order.price orders)

  unfoldable pub min_price : List (Order P) → Option P
  min_price [] = none
  min_price (order ∷ orders) = some (lowest order.price orders)

  -- `depth[price] = depth.get(price, 0) + qty`, on the items in the order of insertion.
  unfoldable pub add_depth : P → ℕ → List (P × ℕ) → List (P × ℕ)
  add_depth price qty [] = (price, qty) ∷ []
  add_depth price qty ((p, q) ∷ depth) =
      if same_price p price then (p, q + qty) ∷ depth else (p, q) ∷ add_depth price qty depth

  unfoldable pub depth_from : List (P × ℕ) → List (Order P) → List (P × ℕ)
  depth_from depth [] = depth
  depth_from depth (order ∷ orders) = depth_from (add_depth order.price order.quantity depth) orders

  -- `<=` on the items.
  abbrev pub item_le : P × ℕ → P × ℕ → Bool
  item_le (p, q) (p', q') = if same_price p p' then leb q q' else o.le p p'

  pub depth_by_price : List (Order P) → List (P × ℕ)
  depth_by_price orders = sorted item_le (depth_from [] orders)

module _ {ℓ} {P : Type ℓ} (f : FloatOps P) where
  -- The sum of `price * qty`, from `acc` on.
  unfoldable pub notional_from : P → List (Trade P) → P
  notional_from acc [] = acc
  notional_from acc (t ∷ trades) = notional_from (f.add acc (f.mul t.price (f.float t.qty))) trades

  unfoldable pub vwap : List (Trade P) → Option P
  vwap trades =
      if traded_qty trades == 0
      then none
      else some (f.div (notional_from (f.float 0) trades) (f.float (traded_qty trades)))

  pub fill_rate : List (Trade P) → ℕ → P
  fill_rate trades submitted_qty =
      if submitted_qty == 0
      then f.float 0
      else f.div (f.float (traded_qty trades)) (f.float submitted_qty)

  abbrev pub difference : Option P → Option P → Option P
  difference (some ask) (some bid) = some (f.sub ask bid)
  difference (some ask) none = none
  difference none bid = none

  abbrev pub midpoint : Option P → Option P → Option P
  midpoint (some ask) (some bid) = some (f.div (f.add ask bid) (f.float 2))
  midpoint (some ask) none = none
  midpoint none bid = none

module _ {ℓ} {P : Type ℓ} ⦃o : PriceOrder P⦄ (f : FloatOps P) where
  pub snapshot : Engine P → BookSnapshot P
  snapshot book = record {
    best_bid = max_price book.buy_orders;
    best_ask = min_price book.sell_orders;
    spread = difference f (min_price book.sell_orders) (max_price book.buy_orders);
    mid = midpoint f (min_price book.sell_orders) (max_price book.buy_orders);
    bid_depth = length book.buy_orders;
    ask_depth = length book.sell_orders;
    bid_qty = total_qty book.buy_orders;
    ask_qty = total_qty book.sell_orders;
  }

  abbrev pub min_trade_price : P → List (Trade P) → P
  min_trade_price p [] = p
  min_trade_price p (t ∷ trades) = min_trade_price (min_float p t.price) trades

  abbrev pub max_trade_price : P → List (Trade P) → P
  max_trade_price p [] = p
  max_trade_price p (t ∷ trades) = max_trade_price (max_float p t.price) trades

  pub trade_stats : List (Trade P) → TradeStats P
  trade_stats [] = record {
    count = 0;
    total_qty = 0;
    vwap = none;
    min_price = none;
    max_price = none;
  }
  trade_stats (t ∷ trades) = record {
    count = suc (length trades);
    total_qty = traded_qty (t ∷ trades);
    vwap = vwap f (t ∷ trades);
    min_price = some (min_trade_price t.price trades);
    max_price = some (max_trade_price t.price trades);
  }

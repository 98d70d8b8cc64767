-- ===== src/Engine/Priority.antt =====
-- Price-time priority of src/engine/matching_engine.py: whom an incoming order trades with, at
-- which prices, and in which order.
use infotact_python_project.Prelude.{
  ℕ, ◌<◌, ◌≤◌, Bool, ◌&&◌, [], ◌∷◌, arith, All-map, true, false, ◌==◌, List, ◌++◌, ◌≡◌, refl, All,
  length, take, map, Perm, filter, length-map,
}
use infotact_python_project.Float.{PriceOrder}
use infotact_python_project.Engine.{
  Order, Trade, Engine, key_lt, buy, buy_trade, sell_trade, sort, add_order, ge,
}
use infotact_python_project.Engine.Sorting.{
  All-sort, sort-IsSorted, sort-perm, IsSorted, dual, sort_stable, same_key,
}
use infotact_python_project.Engine.Fills.{IsLive, sweep-trades, sweep-makers}
use infotact_python_project.Engine.Uncrossed.{IsValid}
use infotact_python_project.Engine.Steps.{
  buy_walk, sell_walk, add_order-after_buy, add_order-after_sell,
}

module _ {ℓ} {P : Type ℓ} where
  -- Who a resting order is, and the price at which it stands.
  abbrev pub maker_of : Order P → ℕ × P
  maker_of b = (b.order_id, b.price)

  buy_trade-maker :
      (a b : Order P) (n : ℕ)
      → let t = buy_trade a b n in ◌≡◌ {A = ℕ × P} (t.sell_id, t.price) (maker_of b)
  unfolding buy_trade
  buy_trade-maker a b n = refl

  sell_trade-maker :
      (a b : Order P) (n : ℕ)
      → let t = sell_trade a b n in ◌≡◌ {A = ℕ × P} (t.buy_id, t.price) (maker_of b)
  unfolding sell_trade
  sell_trade-maker a b n = refl

module _ {ℓ} {P : Type ℓ} ⦃o : PriceOrder P⦄ where
  -- `a` goes before `b`: at a better price for the incoming order, or at the same price and
  -- earlier.
  abbrev pub GoesBefore : (P → P → Bool) → Order P → Order P → Type 0
  GoesBefore le a b =
      (le a.price b.price ≡ true) × (le b.price a.price ≡ true → a.timestamp ≤ b.timestamp)

  abbrev pub InOrder : (P → P → Bool) → List (Order P) → Type 0
  InOrder le [] = Unit
  InOrder le (a ∷ rest) = All (GoesBefore le a) rest × InOrder le rest

  abbrev pub same_level : (P → P → Bool) → Order P → Order P → Bool
  same_level le a b = le a.price b.price && (le b.price a.price && a.timestamp == b.timestamp)

  not_later : (p : PriceOrder P) (a b : Order P) → key_lt p.le b a ≡ false → GoesBefore p.le a b
  unfolding key_lt
  not_later p a b h =
      (ground (arith, p.le_total a.price b.price), λ k. ground (arith, p.le_total a.price b.price))

  same_key_level : (p : PriceOrder P) (a b : Order P) → same_key p.le a b ≡ same_level p.le a b
  unfolding key_lt
  same_key_level p a b = ground (arith, p.le_total a.price b.price)

  IsSorted-InOrder :
      (p : PriceOrder P) (queue : List (Order P)) → IsSorted p.le queue → InOrder p.le queue
  IsSorted-InOrder p [] h = tt
  IsSorted-InOrder p (a ∷ rest) h =
      (All-map _ _ rest (λ b k. not_later p a b k) h.0, IsSorted-InOrder p rest h.1)

  same_key-same_level : (p : PriceOrder P) (a : Order P) → same_key p.le a ≡ same_level p.le a
  same_key-same_level p a = λ i. λ b. same_key_level p a b i

  -- What a new trade of an incoming BUY is: for that order, for live shares, within its limit.
  pub record IsPurchase (order : Order P) (t : Trade P) : Type 0 where
    pub taker : t.buy_id ≡ order.order_id
    pub live : 0 < t.qty
    pub limit : o.le t.price order.price ≡ true

  pub record IsSale (order : Order P) (t : Trade P) : Type 0 where
    pub taker : t.sell_id ≡ order.order_id
    pub live : 0 < t.qty
    pub limit : o.le order.price t.price ≡ true

  -- The makers of the new trades are the first entries of the other side of the book, sorted by
  -- price and then by time; entries of one price and time stay in the order of their arrival.
  pub record ByPriority (le : P → P → Bool) (side : List (Order P)) (makers : List (ℕ × P))
      : Type ℓ where
    pub queue : List (Order P)
    pub same : Perm queue side
    pub sorted : InOrder le queue
    pub stable : (c : Order P) → filter (same_level le c) queue ≡ filter (same_level le c) side
    pub front : makers ≡ map maker_of (take (length makers) queue)

  -- An incoming BUY adds to the tape, and only adds: trades of its own, for live shares, at or
  -- below its limit, made with the resting sales in the order of price, time and arrival.
  pub add_order_priority_buy :
      (order : Order P) (e : Engine P)
      → IsValid e
      → (order.side == buy) ≡ true
      → (ts : List (Trade P)) × ((add_order order e).trades ≡ e.trades ++ ts)
        × All (IsPurchase order) ts
        × ByPriority o.le e.sell_orders (map (λ t. (t.sell_id, t.price)) ts)
  unfolding buy_trade
  add_order_priority_buy order e v h = (
    ts,
    rw (add_order-after_buy order e h) refl,
    sweep-trades o.le buy_trade (IsPurchase order) order _
        (λ q b n live limit. record { taker = refl; live = live; limit = limit })
        (All-sort o.le IsLive e.sell_orders v.live_sells),
    record {
      queue = sort o.le e.sell_orders;
      same = sort-perm o.le e.sell_orders;
      sorted = IsSorted-InOrder o _ (sort-IsSorted o e.sell_orders);
      stable = λ c. rw (same_key-same_level o c) at (sort_stable o c e.sell_orders);
      front = rw (length-map {A = Trade P} {B = ℕ × P} (λ t. (t.sell_id, t.price)) ts) (
          sweep-makers o.le buy_trade (λ t. (t.sell_id, t.price)) maker_of buy_trade-maker order
            (sort o.le e.sell_orders));
    },
  )
    where
      ts : List (Trade P)
      ts = (buy_walk order e).trades

  -- The same for an incoming SELL: at or above its limit, with the resting purchases from the
  -- highest price down.
  pub add_order_priority_sell :
      (order : Order P) (e : Engine P)
      → IsValid e
      → (order.side == buy) ≡ false
      → (ts : List (Trade P)) × ((add_order order e).trades ≡ e.trades ++ ts)
        × All (IsSale order) ts
        × ByPriority ge e.buy_orders (map (λ t. (t.buy_id, t.price)) ts)
  unfolding sell_trade
  add_order_priority_sell order e v h = (
    ts,
    rw (add_order-after_sell order e h) refl,
    sweep-trades ge sell_trade (IsSale order) order _
        (λ q b n live limit. record { taker = refl; live = live; limit = limit })
        (All-sort ge IsLive e.buy_orders v.live_buys),
    record {
      queue = sort ge e.buy_orders;
      same = sort-perm ge e.buy_orders;
      sorted = IsSorted-InOrder (dual o) _ (sort-IsSorted (dual o) e.buy_orders);
      stable = λ c. rw (same_key-same_level (dual o) c) at (sort_stable (dual o) c e.buy_orders);
      front = rw (length-map {A = Trade P} {B = ℕ × P} (λ t. (t.buy_id, t.price)) ts) (
          sweep-makers ge sell_trade (λ t. (t.buy_id, t.price)) maker_of sell_trade-maker order
            (sort ge e.buy_orders));
    },
  )
    where
      ts : List (Trade P)
      ts = (sell_walk order e).trades

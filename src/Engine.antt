-- ===== src/Engine.antt =====
-- src/engine/matching_engine.py: the reference limit order book. `_match_buy` and `_match_sell` are
-- one loop that differs in the direction of the price order and in who is the buyer of a trade.
pub mod Sorting
pub mod Sweep
pub mod Fills
pub mod Steps
pub mod Conservation
pub mod Uncrossed
pub mod Priority
pub mod Snapshot
mod Examples
use infotact_python_project.Prelude.{
  ℕ, zero, suc, ◌+◌, ◌-◌, min, Bool, true, false, not, ◌&&◌, if◌then◌else◌, ltb, ◌==◌, Option, none,
  some, List, [], ◌∷◌, ◌++◌, length, ◌≡◌, ◌⊎◌,
}
use infotact_python_project.Float.{PriceOrder}

-- `BUY`; any other side is a sale.
abbrev pub buy : ℕ
buy = 0

abbrev pub sell : ℕ
sell = 1

pub record Order {ℓ} (P : Type ℓ) : Type ℓ where
  pub order_id : ℕ
  pub side : ℕ
  pub price : P
  pub quantity : ℕ
  pub timestamp : ℕ

pub record Trade {ℓ} (P : Type ℓ) : Type ℓ where
  pub buy_id : ℕ
  pub sell_id : ℕ
  pub price : P
  pub qty : ℕ

pub record Engine {ℓ} (P : Type ℓ) : Type ℓ where
  pub order_count : ℕ
  pub buy_orders : List (Order P)
  pub sell_orders : List (Order P)
  pub trades : List (Trade P)

-- The variables of the matching loop: the incoming order, the other side of the book, the tape.
pub record Matching {ℓ} (P : Type ℓ) : Type ℓ where
  pub order : Order P
  pub book : List (Order P)
  pub trades : List (Trade P)

unfoldable pub init {ℓ} : (P : Type ℓ) → Engine P
init P = record { order_count = 0; buy_orders = []; sell_orders = []; trades = [] }

-- A trade of the incoming order (first) with the resting one.
unfoldable pub buy_trade {ℓ} : {P : Type ℓ} → Order P → Order P → ℕ → Trade P
buy_trade order best_sell matched_qty = record {
  buy_id = order.order_id;
  sell_id = best_sell.order_id;
  price = best_sell.price;
  qty = matched_qty;
}

unfoldable pub sell_trade {ℓ} : {P : Type ℓ} → Order P → Order P → ℕ → Trade P
sell_trade order best_buy matched_qty = record {
  buy_id = best_buy.order_id;
  sell_id = order.order_id;
  price = best_buy.price;
  qty = matched_qty;
}

-- The `if` after the loop: what is left of the order rests on its own side.
unfoldable pub rest_remainder {ℓ} : {P : Type ℓ} → Order P → List (Order P) → List (Order P)
rest_remainder order own = if ltb 0 order.quantity then own ++ (order ∷ []) else own

-- `le a b`: the price `a` is at least as good for the incoming order as `b`. It is `<=` for an
-- incoming BUY and `>=` for an incoming SELL.
module _ {ℓ} {P : Type ℓ} (le : P → P → Bool) where
  -- `<` on the sort keys `(price, timestamp)`, where the price is negated for `>=`.
  unfoldable pub key_lt : Order P → Order P → Bool
  key_lt a b =
      if le a.price b.price && le b.price a.price
      then ltb a.timestamp b.timestamp
      else not (le b.price a.price)

  unfoldable pub insert : Order P → List (Order P) → List (Order P)
  insert a [] = a ∷ []
  insert a (b ∷ bs) = if key_lt b a then b ∷ insert a bs else a ∷ b ∷ bs

  -- `list.sort` is stable: an entry goes before the later entries of an equal key.
  unfoldable pub sort : List (Order P) → List (Order P)
  sort [] = []
  sort (a ∷ rest) = insert a (sort rest)

  unfoldable pub crosses : Order P → List (Order P) → Bool
  crosses order [] = false
  crosses order (best ∷ _) = ltb 0 order.quantity && le best.price order.price

  module _ (trade : Order P → Order P → ℕ → Trade P) where
    unfoldable pub match_best : Order P → List (Order P) → List (Trade P) → Matching P
    match_best order [] trades = record { order = order; book = []; trades = trades }
    match_best order (best ∷ rest) trades = record {
      order = record order { quantity = order.quantity - matched_qty };
      book =
          if best.quantity - matched_qty == 0
          then rest
          else record best { quantity = best.quantity - matched_qty } ∷ rest;
      trades = trades ++ (trade order best matched_qty ∷ []);
    }
      where
        matched_qty : ℕ
        matched_qty = min order.quantity best.quantity

    -- The `while`, with fuel.
    unfoldable pub match_loop : ℕ → Matching P → Matching P
    match_loop zero m = m
    match_loop (suc n) m = elim (crosses m.order m.book) [
      | true ↦ match_loop n (match_best m.order m.book m.trades)
      | false ↦ m
    ]

module _ {ℓ} {P : Type ℓ} ⦃o : PriceOrder P⦄ where
  abbrev pub ge : P → P → Bool
  ge a b = o.le b a

  -- Each round but the last removes a resting order, so the length and one more is fuel enough.
  unfoldable pub match_buy : Order P → Engine P → Engine P
  match_buy order e = record e {
    buy_orders = rest_remainder m.order e.buy_orders;
    sell_orders = m.book;
    trades = m.trades;
  }
    where
      book : List (Order P)
      book = sort o.le e.sell_orders

      m : Matching P
      m =
          match_loop o.le buy_trade (suc (length book))
            (record { order = order; book = book; trades = e.trades })

  unfoldable pub match_sell : Order P → Engine P → Engine P
  match_sell order e = record e {
    buy_orders = m.book;
    sell_orders = rest_remainder m.order e.sell_orders;
    trades = m.trades;
  }
    where
      book : List (Order P)
      book = sort ge e.buy_orders

      m : Matching P
      m =
          match_loop ge sell_trade (suc (length book))
            (record { order = order; book = book; trades = e.trades })

  -- The order is the fresh `COrderObj` of the arguments. The call returns its `order_id`.
  unfoldable pub add_order : Order P → Engine P → Engine P
  add_order order e =
      if order.side == buy
      then match_buy order (record e { order_count = e.order_count + 1 })
      else match_sell order (record e { order_count = e.order_count + 1 })

  unfoldable pub add_orders : List (Order P) → Engine P → Engine P
  add_orders [] e = e
  add_orders (order ∷ orders) e = add_orders orders (add_order order e)

unfoldable pub first_price {ℓ} : {P : Type ℓ} → List (Order P) → Option P
first_price [] = none
first_price (order ∷ _) = some order.price

-- `[best_bid, best_ask]`
unfoldable pub get_order_book_snapshot {ℓ} : {P : Type ℓ} → Engine P → Option P × Option P
get_order_book_snapshot e = (first_price e.buy_orders, first_price e.sell_orders)

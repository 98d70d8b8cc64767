-- ===== src/Baseline.antt =====
-- src/model/baseline_matcher.py: `OrderBook`, the first matcher, kept as a fallback. A side is a
-- text in lower case. The trade dictionaries have the keys of those of the engine. An order
-- belongs to the book once it is added: that the caller's object changes with it is not followed.
pub mod Rounds
pub mod Equivalent
mod Examples
use infotact_python_project.Prelude.{
  ℕ, zero, suc, ◌+◌, ◌-◌, min, Bool, true, false, not, ◌&&◌, ◌||◌, if◌then◌else◌, ltb, leb, ◌==◌,
  List, [], ◌∷◌, ◌++◌, length, map,
}
use infotact_python_project.Bytes.{bytes_eq}
use infotact_python_project.Float.{PriceOrder}
use infotact_python_project.Processor
use infotact_python_project.Processor.{Text}
use infotact_python_project.Engine.{Trade}
use infotact_python_project.Consumer.{unsigned}

abbrev pub buy_side : Text
buy_side = b'b' ∷ b'u' ∷ b'y' ∷ []

pub record Order {ℓ} (P : Type ℓ) : Type ℓ where
  pub order_id : ℕ
  pub side : Text
  pub price : P
  pub qty : ℕ
  pub timestamp : ℕ

pub record OrderBook {ℓ} (P : Type ℓ) : Type ℓ where
  pub buy_orders : List (Order P)
  pub sell_orders : List (Order P)
  pub trades : List (Trade P)

-- The variables of the matching loop.
pub record Matching {ℓ} (P : Type ℓ) : Type ℓ where
  pub order : Order P
  pub book : List (Order P)
  pub trades : List (Trade P)

pub new_book {ℓ} : (P : Type ℓ) → OrderBook P
new_book P = record { buy_orders = []; sell_orders = []; trades = [] }

pub lower_char : ℕ → ℕ
lower_char c = if leb b'A' c && leb c b'Z' then c + 32 else c

-- An order of the data processor that was accepted has numbers that are not negative.
pub adapt_order {ℓ} : {P : Type ℓ} → Processor.Order P → Order P
adapt_order o = record {
  order_id = unsigned o.order_id;
  side = map lower_char o.side;
  price = o.price;
  qty = unsigned o.quantity;
  timestamp = unsigned o.timestamp_ns;
}

-- The dictionary of a trade, with the incoming order first.
pub trade_of_buy {ℓ} : {P : Type ℓ} → Order P → Order P → ℕ → Trade P
trade_of_buy order best_sell matched_qty = record {
  buy_id = order.order_id;
  sell_id = best_sell.order_id;
  price = best_sell.price;
  qty = matched_qty;
}

pub trade_of_sell {ℓ} : {P : Type ℓ} → Order P → Order P → ℕ → Trade P
trade_of_sell order best_buy matched_qty = record {
  buy_id = best_buy.order_id;
  sell_id = order.order_id;
  price = best_buy.price;
  qty = matched_qty;
}

pub rest_in_book {ℓ} : {P : Type ℓ} → Order P → List (Order P) → List (Order P)
rest_in_book order own = if ltb 0 order.qty then own ++ (order ∷ []) else own

-- `le` is `<=` for an incoming purchase and `>=` for an incoming sale.
module _ {ℓ} {P : Type ℓ} (le : P → P → Bool) where
  -- `<` on the sort keys.
  pub goes_first : Order P → Order P → Bool
  goes_first a b =
      if le a.price b.price && le b.price a.price
      then ltb a.timestamp b.timestamp
      else not (le b.price a.price)

  pub insert : Order P → List (Order P) → List (Order P)
  insert a [] = a ∷ []
  insert a (b ∷ bs) = if goes_first b a then b ∷ insert a bs else a ∷ b ∷ bs

  -- `list.sort`, which is stable.
  pub sort : List (Order P) → List (Order P)
  sort [] = []
  sort (a ∷ rest) = insert a (sort rest)

  pub matches : Order P → List (Order P) → Bool
  matches order [] = false
  matches order (best ∷ _) = ltb 0 order.qty && le best.price order.price

  module _ (trade : Order P → Order P → ℕ → Trade P) where
    pub fill_best : Order P → List (Order P) → List (Trade P) → Matching P
    fill_best order [] trades = record { order = order; book = []; trades = trades }
    fill_best order (best ∷ rest) trades = record {
      order = record order { qty = order.qty - matched_qty };
      book =
          if best.qty - matched_qty == 0
          then rest
          else record best { qty = best.qty - matched_qty } ∷ rest;
      trades = trades ++ (trade order best matched_qty ∷ []);
    }
      where
        matched_qty : ℕ
        matched_qty = min order.qty best.qty

    -- The `while`, with fuel.
    pub fill_loop : ℕ → Matching P → Matching P
    fill_loop zero m = m
    fill_loop (suc n) m = elim (matches m.order m.book) [
      | true ↦ fill_loop n (fill_best m.order m.book m.trades)
      | false ↦ m
    ]

module _ {ℓ} {P : Type ℓ} ⦃o : PriceOrder P⦄ where
  pub match_buy : Order P → OrderBook P → OrderBook P
  match_buy order b = record {
    buy_orders = rest_in_book m.order b.buy_orders;
    sell_orders = m.book;
    trades = m.trades;
  }
    where
      book : List (Order P)
      book = sort o.le b.sell_orders

      m : Matching P
      m =
          fill_loop o.le trade_of_buy (suc (length book))
            (record { order = order; book = book; trades = b.trades })

  pub match_sell : Order P → OrderBook P → OrderBook P
  match_sell order b = record {
    buy_orders = m.book;
    sell_orders = rest_in_book m.order b.sell_orders;
    trades = m.trades;
  }
    where
      book : List (Order P)
      book = sort (λ x y. o.le y x) b.buy_orders

      m : Matching P
      m =
          fill_loop (λ x y. o.le y x) trade_of_sell (suc (length book))
            (record { order = order; book = book; trades = b.trades })

  pub add_order : Order P → OrderBook P → OrderBook P
  add_order order b = if bytes_eq order.side buy_side then match_buy order b else match_sell order b

  unfoldable pub add_orders : List (Order P) → OrderBook P → OrderBook P
  add_orders [] b = b
  add_orders (order ∷ orders) b = add_orders orders (add_order order b)

-- ===== src/Compiled.antt =====
-- src/engine/matching_engine.pyx: the compiled engine, whose resting orders stay sorted: an order
-- that is left over is inserted at its place. The arrays are lists; memory is there when they
-- grow, so their capacities are left out. The arguments of a call fit their C types; sums of
-- quantities wrap.
pub mod Insertion
pub mod Matched
pub mod Batch
pub mod Depth
pub mod Walk
pub mod Ladder
mod Examples
use infotact_python_project.Prelude.{
  ℕ, zero, suc, ◌+◌, ◌-◌, ◌%◌, ◌^◌, Bool, true, false, not, ◌&&◌, ◌||◌, if◌then◌else◌, ltb, leb,
  ◌==◌, Option, none, some, List, [], ◌∷◌, ◌++◌, length, take, drop, sorted, Result, ok, err, ◌≡◌,
  ℤ, pos, negsuc,
}
use infotact_python_project.Float.{PriceOrder, same_price}
use infotact_python_project.Engine.{
  Order, Trade, Matching, buy, sell, buy_trade, sell_trade, crosses, first_price, ge,
}
use infotact_python_project.Metrics.{depth_from, item_le}

-- `ValueError` and `OverflowError`.
pub data Error : Type 0 where
  value_error overflow_error : Error

pub record MatchingEngine {ℓ} (P : Type ℓ) : Type ℓ where
  pub order_count : ℕ
  pub buy_orders : List (Order P)
  pub sell_orders : List (Order P)
  pub trades : List (Trade P)

unfoldable pub new_engine {ℓ} : (P : Type ℓ) → MatchingEngine P
new_engine P = record { order_count = 0; buy_orders = []; sell_orders = []; trades = [] }

unfoldable pub matched_quantity {ℓ} : {P : Type ℓ} → Order P → Order P → ℕ
matched_quantity order best =
    if ltb order.quantity best.quantity then order.quantity else best.quantity

-- `le a b`: the price `a` is at least as good as `b`, at the side that is meant.
module _ {ℓ} {P : Type ℓ} (le : P → P → Bool) where
  -- The two tests of the loop that looks for the place.
  unfoldable pub goes_before : Order P → Order P → Bool
  goes_before order resting =
      not (le resting.price order.price)
      || (le order.price resting.price
          && (le resting.price order.price && ltb order.timestamp resting.timestamp))

  -- `_insert_sell`, or `_insert_buy`.
  unfoldable pub insert_order : Order P → List (Order P) → List (Order P)
  insert_order order [] = order ∷ []
  insert_order order (resting ∷ rest) =
      let later = insert_order order rest in
      if goes_before order resting then order ∷ resting ∷ rest else resting ∷ later

  -- The last `if` of `_match_buy` and `_match_sell`.
  unfoldable pub rest_order : Order P → List (Order P) → List (Order P)
  rest_order order own = if ltb 0 order.quantity then insert_order order own else own

  module _ (trade : Order P → Order P → ℕ → Trade P) where
    unfoldable pub fill : Order P → List (Order P) → List (Trade P) → Matching P
    fill order [] trades = record { order = order; book = []; trades = trades }
    fill order (best ∷ rest) trades = record {
      order = record order { quantity = order.quantity - matched_quantity order best };
      book =
          if best.quantity - matched_quantity order best == 0
          then rest
          else record best { quantity = best.quantity - matched_quantity order best } ∷ rest;
      trades = trades ++ (trade order best (matched_quantity order best) ∷ []);
    }

    -- The `while`, with fuel.
    unfoldable pub fill_all : ℕ → Matching P → Matching P
    fill_all zero m = m
    fill_all (suc n) m = elim (crosses le m.order m.book) [
      | true ↦ fill_all n (fill m.order m.book m.trades)
      | false ↦ m
    ]

-- `processed += 1`, on what the later items make.
unfoldable pub count_processed {ℓ} :
    {P : Type ℓ} → Result Error ℕ × MatchingEngine P → Result Error ℕ × MatchingEngine P
count_processed (ok processed, e) = (ok (processed + 1), e)
count_processed (err x, e) = (err x, e)

-- What an order of the batch leaves, before the later ones.
unfoldable pub then_batch {ℓ} :
    {P : Type ℓ}
    → Result Error ℕ × MatchingEngine P
    → (MatchingEngine P → Result Error ℕ × MatchingEngine P)
    → Result Error ℕ × MatchingEngine P
then_batch (err x, e) later = (err x, e)
then_batch (ok order_id, e) later = count_processed (later e)

module _ {ℓ} {P : Type ℓ} ⦃o : PriceOrder P⦄ where
  -- Each round but the last removes a resting order, so the length and one more is fuel enough.
  unfoldable pub match_buy : Order P → MatchingEngine P → MatchingEngine P
  match_buy order e =
      let m =
        fill_all o.le buy_trade (suc (length e.sell_orders))
          (record { order = order; book = e.sell_orders; trades = e.trades }) in
      record e {
        buy_orders = rest_order ge m.order e.buy_orders;
        sell_orders = m.book;
        trades = m.trades;
      }

  unfoldable pub match_sell : Order P → MatchingEngine P → MatchingEngine P
  match_sell order e =
      let m =
        fill_all ge sell_trade (suc (length e.buy_orders))
          (record { order = order; book = e.buy_orders; trades = e.trades }) in
      record e {
        buy_orders = m.book;
        sell_orders = rest_order o.le m.order e.sell_orders;
        trades = m.trades;
      }

  -- What follows the tests of `add_order`.
  unfoldable pub accept : Order P → MatchingEngine P → MatchingEngine P
  accept order e =
      let matched = if order.side == buy then match_buy order e else match_sell order e in
      record matched { order_count = e.order_count + 1 }

  module _ (zero_price : P) (is_finite : P → Bool) where
    unfoldable pub add_order : Order P → MatchingEngine P → Result Error ℕ × MatchingEngine P
    add_order order e =
        if not (order.side == buy || order.side == sell)
        then (err value_error, e)
        else if not (is_finite order.price) || o.le order.price zero_price
        then (err value_error, e)
        else if order.quantity == 0
        then (err value_error, e)
        else if e.order_count == 2 ^ 64 - 1
        then (err overflow_error, e)
        else (ok order.order_id, accept order e)

    -- An item that has not five values is none.
    unfoldable pub add_orders_batch :
        List (Option (Order P)) → MatchingEngine P → Result Error ℕ × MatchingEngine P
    add_orders_batch [] e = (ok 0, e)
    add_orders_batch (none ∷ items) e = (err value_error, e)
    add_orders_batch (some order ∷ items) e =
        then_batch (add_order order e) (λ e'. add_orders_batch items e')

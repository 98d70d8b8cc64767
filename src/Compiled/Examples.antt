-- ===== src/Compiled/Examples.antt =====
-- The compiled engine at a concrete batch, good and bad.
use infotact_python_project.Prelude.{
  ℕ, Bool, true, some, List, [], ◌∷◌, ◌++◌, map, ok, err, ◌≡◌, refl, arith,
}
use infotact_python_project.Float.{PriceOrder}
use infotact_python_project.Float.Cents.{numbers}
use infotact_python_project.Engine
use infotact_python_project.Engine.{Order, init}
use infotact_python_project.Engine.{crosses}
use infotact_python_project.Engine.Sorting.{total}
use infotact_python_project.Metrics.{depth_from}
use infotact_python_project.Metrics.Depth.{IsLadder}
use infotact_python_project.Prelude.{leb}
use infotact_python_project.Prelude.{take, All, ◌<◌, ◌^◌}
use infotact_python_project.Compiled.Ladder.{get_book_depth_lem}
use infotact_python_project.Compiled.Depth.{get_book_depth}
use infotact_python_project.Compiled.{
  then_batch, count_processed, add_order, accept, match_buy, match_sell, fill_all, fill, rest_order,
  insert_order, goes_before, value_error, new_engine, add_orders_batch,
}
use infotact_python_project.Compiled.Matched.{Agrees}
use infotact_python_project.Compiled.Batch.{is_acceptable, compiled_equivalent, batch_stops}

instance abbrev cents : PriceOrder ℕ
cents = numbers

abbrev finite : ℕ → Bool
finite price = true

abbrev order_of : ℕ → ℕ → ℕ → ℕ → Order ℕ
order_of n side price quantity = record {
  order_id = n;
  side = side;
  price = price;
  quantity = quantity;
  timestamp = n;
}

-- Two sales, and a purchase that clears the better one and a part of the other.
abbrev orders : List (Order ℕ)
orders = order_of 1 1 10050 30 ∷ order_of 2 1 10000 20 ∷ order_of 3 0 10050 35 ∷ []

compiled_equivalent_example :
    let r = add_orders_batch 0 finite (map some orders) (new_engine ℕ) in
    (r.0 ≡ ok 3) × Agrees r.1 (Engine.add_orders orders (init ℕ))
unfolding is_acceptable
compiled_equivalent_example =
    compiled_equivalent 0 finite orders (refl, (refl, (refl, tt))) (omega arith)

-- The fourth item has no quantity.
batch_stops_example :
    let r =
      add_orders_batch 0 finite
        (map some orders ++ (some (order_of 4 0 10000 0) ∷ some (order_of 5 1 10000 1) ∷ []))
        (new_engine ℕ) in
    (r.0 ≡ err value_error) × Agrees r.1 (Engine.add_orders orders (init ℕ))
unfolding is_acceptable
batch_stops_example =
    batch_stops 0 finite orders (some (order_of 4 0 10000 0)) (some (order_of 5 1 10000 1) ∷ [])
      (refl, (refl, (refl, tt))) (omega arith) refl

-- Two sales at one price, a better one, and a purchase below; one level of each side is shown.
abbrev resting : List (Order ℕ)
resting =
    order_of 1 1 10050 30 ∷ order_of 2 1 10000 20 ∷ order_of 3 1 10050 5 ∷ order_of 4 0 9900 7 ∷ []

resting_acceptable : All (λ order. is_acceptable 0 finite order ≡ true) resting
unfolding is_acceptable
resting_acceptable = (refl, (refl, (refl, (refl, tt))))

resting_bids :
    total (add_orders_batch 0 finite (map some resting) (new_engine ℕ)).1.buy_orders < 2 ^ 64
unfolding add_orders_batch then_batch count_processed add_order accept match_buy match_sell fill_all
    fill rest_order insert_order goes_before crosses new_engine total
resting_bids = omega arith

resting_asks :
    total (add_orders_batch 0 finite (map some resting) (new_engine ℕ)).1.sell_orders < 2 ^ 64
unfolding add_orders_batch then_batch count_processed add_order accept match_buy match_sell fill_all
    fill rest_order insert_order goes_before crosses new_engine total
resting_asks = omega arith

get_book_depth_lem_example :
    let c = (add_orders_batch 0 finite (map some resting) (new_engine ℕ)).1 in
    let d = get_book_depth 1 c in
    (d.bid_levels ≡ take 1 (depth_from [] c.buy_orders))
    × IsLadder (λ a b. leb b.0 a.0) c.buy_orders (depth_from [] c.buy_orders)
    × (d.ask_levels ≡ take 1 (depth_from [] c.sell_orders))
    × IsLadder (λ a b. leb a.0 b.0) c.sell_orders (depth_from [] c.sell_orders)
    × (d.total_bid_qty ≡ total c.buy_orders)
    × (d.total_ask_qty ≡ total c.sell_orders)
get_book_depth_lem_example =
    get_book_depth_lem 0 finite 1 resting resting_acceptable (omega arith) resting_bids resting_asks

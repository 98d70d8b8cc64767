-- ===== src/Engine/Examples.antt =====
-- Runs of the matching engine on prices in cents, and its theorems at concrete inputs.
use infotact_python_project.Prelude.{
  ℕ, ◌+◌, true, false, leb, List, [], ◌∷◌, ◌≡◌, refl, arith, ◌⊎◌, some, All, ◌++◌, map,
}
use infotact_python_project.Float.{PriceOrder}
use infotact_python_project.Engine.{
  Order, Trade, Engine, Matching, init, add_order, add_orders, buy_trade, match_loop, match_best,
  sort, insert, key_lt, crosses, get_order_book_snapshot, match_buy, match_sell, rest_remainder, ge,
}
use infotact_python_project.Engine.Sorting.{total}
use infotact_python_project.Engine.Fills.{volume}
use infotact_python_project.Engine.Sweep.{match_loop_ends}
use infotact_python_project.Engine.Conservation.{
  add_order_conserves, add_orders_conserve, bought, sold, bought_all, sold_all,
}
use infotact_python_project.Engine.Uncrossed.{IsValid, add_order-IsValid, add_orders-IsValid}
use infotact_python_project.Engine.Priority.{
  IsPurchase, IsSale, ByPriority, add_order_priority_buy, add_order_priority_sell,
}
use infotact_python_project.Engine.Snapshot.{ReportsBestBid, snapshot_stale}

cents_total : (a b : ℕ) → (leb a b ≡ true) ⊎ (leb b a ≡ true)
cents_total a b = ground arith

cents_trans : (a b c : ℕ) → leb a b ≡ true → leb b c ≡ true → leb a c ≡ true
cents_trans a b c h k = ground arith

instance abbrev cents : PriceOrder ℕ
cents = record { le = leb; le_total = cents_total; le_trans = cents_trans }

abbrev order_of : ℕ → ℕ → ℕ → ℕ → ℕ → Order ℕ
order_of order_id side price quantity timestamp = record {
  order_id = order_id;
  side = side;
  price = price;
  quantity = quantity;
  timestamp = timestamp;
}

abbrev stream : List (Order ℕ)
stream =
    order_of 1 1 10050 30 1
    ∷ order_of 2 1 10000 20 2
    ∷ order_of 3 1 10000 10 3
    ∷ order_of 4 0 10050 35 4
    ∷ []

-- One BUY clears the level at 100.00 in the order of time, and takes 5 at 100.50.
stream-trades :
    (add_orders stream (init ℕ)).trades
    ≡ record { buy_id = 4; sell_id = 2; price = 10000; qty = 20 }
      ∷ record { buy_id = 4; sell_id = 3; price = 10000; qty = 10 }
      ∷ record { buy_id = 4; sell_id = 1; price = 10050; qty = 5 }
      ∷ []
unfolding add_orders add_order match_buy match_sell match_loop match_best crosses sort insert key_lt
    rest_remainder buy_trade init
stream-trades = refl

abbrev resting : Engine ℕ
resting = record {
  order_count = 2;
  buy_orders = order_of 1 0 9900 5 1 ∷ order_of 2 0 9950 5 2 ∷ [];
  sell_orders = order_of 3 1 10000 7 3 ∷ [];
  trades = [];
}

resting-IsValid : IsValid resting
resting-IsValid = record {
  live_buys = omega arith;
  live_sells = omega arith;
  uncrossed = ((refl, tt), ((refl, tt), tt));
}

abbrev one_sale : Matching ℕ
one_sale = record { order = order_of 4 0 10050 9 4; book = resting.sell_orders; trades = [] }

match_loop_ends_example :
    let m = match_loop leb buy_trade 2 one_sale in
    (crosses leb m.order m.book ≡ false) × (match_loop leb buy_trade (2 + 3) one_sale ≡ m)
match_loop_ends_example = match_loop_ends leb buy_trade 2 3 one_sale (omega arith)

add_order_conserves_example :
    let e = add_order (order_of 4 0 10050 9 4) resting in
    (total e.buy_orders + volume e.trades
      ≡ total resting.buy_orders + volume resting.trades + bought (order_of 4 0 10050 9 4))
    × (total e.sell_orders + volume e.trades
        ≡ total resting.sell_orders + volume resting.trades + sold (order_of 4 0 10050 9 4))
add_order_conserves_example = add_order_conserves (order_of 4 0 10050 9 4) resting

add_orders_conserve_example :
    let e = add_orders stream (init ℕ) in
    (total e.buy_orders + volume e.trades ≡ bought_all stream)
    × (total e.sell_orders + volume e.trades ≡ sold_all stream)
add_orders_conserve_example = add_orders_conserve stream

add_order-IsValid_example : IsValid (add_order (order_of 4 0 10050 9 4) resting)
add_order-IsValid_example = add_order-IsValid (order_of 4 0 10050 9 4) resting resting-IsValid

add_orders-IsValid_example : IsValid (add_orders stream (init ℕ))
add_orders-IsValid_example = add_orders-IsValid stream

add_order_priority_buy_example :
    (ts : List (Trade ℕ)) × ((add_order (order_of 4 0 10050 9 4) resting).trades
      ≡ resting.trades ++ ts)
    × All (IsPurchase (order_of 4 0 10050 9 4)) ts
    × ByPriority leb resting.sell_orders (map (λ t. (t.sell_id, t.price)) ts)
add_order_priority_buy_example =
    add_order_priority_buy (order_of 4 0 10050 9 4) resting resting-IsValid refl

add_order_priority_sell_example :
    (ts : List (Trade ℕ)) × ((add_order (order_of 4 1 9900 9 4) resting).trades
      ≡ resting.trades ++ ts)
    × All (IsSale (order_of 4 1 9900 9 4)) ts
    × ByPriority ge resting.buy_orders (map (λ t. (t.buy_id, t.price)) ts)
add_order_priority_sell_example =
    add_order_priority_sell (order_of 4 1 9900 9 4) resting resting-IsValid refl

-- The bid at 99.60 is the best, and 99.00 is reported.
snapshot_stale_example :
    let e = add_order (order_of 4 0 9960 1 4) resting in
    ((get_order_book_snapshot e).0 ≡ some 9900) × (¬ ReportsBestBid e)
snapshot_stale_example =
    snapshot_stale (order_of 4 0 9960 1 4) (order_of 1 0 9900 5 1) (order_of 2 0 9950 5 2 ∷ [])
      resting refl (omega arith) (refl, tt) refl refl

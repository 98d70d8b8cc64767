-- ===== src/Metrics/Examples.antt =====
-- The theorems on the analytics at a concrete book.
use infotact_python_project.Prelude.{ℕ, true, some, List, [], ◌∷◌, ◌≡◌, refl, sorted, insert_before}
use infotact_python_project.Float.{PriceOrder}
use infotact_python_project.Float.Cents.{numbers, number_ops}
use infotact_python_project.Engine.{
  Order, Engine, add_order, get_order_book_snapshot, first_price, match_sell, match_loop,
  match_best, sort, insert, key_lt, crosses, rest_remainder, sell_trade,
}
use infotact_python_project.Metrics.{
  snapshot, depth_by_price, max_price, highest, add_depth, depth_from,
}
use infotact_python_project.Metrics.Best.{same_best, snapshot_agrees}

instance abbrev cents : PriceOrder ℕ
cents = numbers

abbrev bid : ℕ → ℕ → ℕ → Order ℕ
bid order_id price quantity = record {
  order_id = order_id;
  side = 0;
  price = price;
  quantity = quantity;
  timestamp = order_id;
}

abbrev bids : List (Order ℕ)
bids = bid 1 10000 5 ∷ bid 2 9900 4 ∷ bid 3 10000 6 ∷ []

abbrev book : Engine ℕ
book = record { order_count = 3; buy_orders = bids; sell_orders = []; trades = [] }

abbrev ask : Order ℕ
ask = record { order_id = 4; side = 1; price = 9950; quantity = 7; timestamp = 4 }

-- Two levels, the lower first.
bids-depth : depth_by_price bids ≡ (9900, 4) ∷ (10000, 11) ∷ []
unfolding depth_by_price depth_from add_depth sorted insert_before
bids-depth = refl

abbrev after : Engine ℕ
after = add_order ask book

snapshot_agrees_example :
    same_best (get_order_book_snapshot after).0 (snapshot number_ops after).best_bid ≡ true
snapshot_agrees_example = snapshot_agrees number_ops ask book

-- The second bid at this price is left.
after-best :
    ((get_order_book_snapshot after).0 ≡ some 10000)
    × ((snapshot number_ops after).best_bid ≡ some 10000)
unfolding get_order_book_snapshot first_price snapshot max_price highest add_order match_sell
    match_loop match_best sort insert key_lt crosses rest_remainder sell_trade
after-best = (refl, refl)

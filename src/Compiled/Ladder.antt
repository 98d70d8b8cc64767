-- ===== src/Compiled/Ladder.antt =====
-- `get_book_depth` of src/engine/matching_engine.pyx on the book that a batch leaves.
use infotact_python_project.Prelude.{
  ℕ, ◌+◌, ◌^◌, ◌<◌, Bool, true, some, List, [], ◌∷◌, length, take, All, ◌≡◌, refl, sym, ap, ◌∙◌,
  arith, map, subst, ◌&&◌,
}
use infotact_python_project.Float.{PriceOrder, same_price}
use infotact_python_project.Engine.{Order, key_lt}
use infotact_python_project.Engine.Sorting.{IsSorted, total, dual}
use infotact_python_project.Metrics.{depth_from}
use infotact_python_project.Metrics.Depth.{IsLadder, depth_from-apart, shown_at-depth_from}
use infotact_python_project.Engine
use infotact_python_project.Engine.{init}
use infotact_python_project.Engine.Sorting.{sort-IsSorted}
use infotact_python_project.Compiled.{new_engine, add_orders_batch}
use infotact_python_project.Compiled.Batch.{is_acceptable, compiled_equivalent}
use infotact_python_project.Compiled.Depth.{total_quantity, get_book_depth}
use infotact_python_project.Compiled.Walk.{no_wrap, side_levels_lem, depth_from-Ascends}

module _ {ℓ} {P : Type ℓ} ⦃o : PriceOrder P⦄ where
  total_quantity-total :
      (t : ℕ) (orders : List (Order P))
      → t + total orders < 2 ^ 64
      → total_quantity t orders ≡ t + total orders
  unfolding total_quantity total
  total_quantity-total t [] h = omega arith
  total_quantity-total t (order ∷ orders) h =
      ap (λ k. total_quantity k orders) (no_wrap (t + order.quantity) (omega (arith, h)))
      ∙ total_quantity-total (t + order.quantity) orders (omega (arith, h))
      ∙ omega arith

  whole_total :
      (orders : List (Order P)) → total orders < 2 ^ 64 → total_quantity 0 orders ≡ total orders
  whole_total orders h = total_quantity-total 0 orders (omega (arith, h)) ∙ omega arith

  -- The levels of a sorted side, the best first.
  sorted-IsLadder :
      (q : PriceOrder P) (orders : List (Order P))
      → ((a b : P) → same_price a b ≡ (q.le a b && q.le b a))
      → IsSorted q.le orders
      → IsLadder (λ a b. q.le a.0 b.0) orders (depth_from [] orders)
  sorted-IsLadder q orders agree s = record {
    sorted_levels = depth_from-Ascends q agree orders s;
    distinct = depth_from-apart [] orders tt;
    shown = λ p. omega (arith, shown_at-depth_from p [] orders);
  }

  -- The compiled engine after a batch of acceptable orders, fewer than 2^64, and with shares on
  -- each side that 64 bits can count: in one pass over each side, `get_book_depth` finds the
  -- first levels of its ladder, which is that of the dictionary of the prices there: the best
  -- price first, no price twice, and at every price what the orders there ask for. It sums up
  -- the whole side.
  pub get_book_depth_lem :
      (zero_price : P) (is_finite : P → Bool) (max_levels : ℕ) (orders : List (Order P))
      → All (λ order. is_acceptable zero_price is_finite order ≡ true) orders
      → length orders < 2 ^ 64
      → total (add_orders_batch zero_price is_finite (map some orders) (new_engine P)).1.buy_orders
        < 2 ^ 64
      → total (add_orders_batch zero_price is_finite (map some orders) (new_engine P)).1.sell_orders
        < 2 ^ 64
      → let c = (add_orders_batch zero_price is_finite (map some orders) (new_engine P)).1 in
        let d = get_book_depth max_levels c in
        (d.bid_levels ≡ take max_levels (depth_from [] c.buy_orders))
        × IsLadder (λ a b. o.le b.0 a.0) c.buy_orders (depth_from [] c.buy_orders)
        × (d.ask_levels ≡ take max_levels (depth_from [] c.sell_orders))
        × IsLadder (λ a b. o.le a.0 b.0) c.sell_orders (depth_from [] c.sell_orders)
        × (d.total_bid_qty ≡ total c.buy_orders)
        × (d.total_ask_qty ≡ total c.sell_orders)
  unfolding get_book_depth
  get_book_depth_lem zero_price is_finite max_levels orders good few bids asks =
      let c = (add_orders_batch zero_price is_finite (map some orders) (new_engine P)).1 in
      let a = (compiled_equivalent zero_price is_finite orders good few).1 in
      let e = Engine.add_orders orders (init P) in
      let buys =
        subst (IsSorted (dual o).le) (sym a.same_buys) (sort-IsSorted (dual o) e.buy_orders) in
      let sells = subst (IsSorted o.le) (sym a.same_sells) (sort-IsSorted o e.sell_orders) in
      (
        side_levels_lem (dual o) (λ a b. ground arith) max_levels c.buy_orders buys bids,
        sorted-IsLadder (dual o) c.buy_orders (λ a b. ground arith) buys,
        side_levels_lem o (λ a b. refl) max_levels c.sell_orders sells asks,
        sorted-IsLadder o c.sell_orders (λ a b. refl) sells,
        whole_total c.buy_orders bids,
        whole_total c.sell_orders asks,
      )

-- ===== src/Monitor/Book/Levels.antt =====
-- What the dashboard shows of the book (src/monitor/latency_monitor.py): the levels against the
-- resting orders, and the whole against the stream of orders that the engine has taken.
use infotact_python_project.Prelude.{
  ℕ, ◌+◌, ◌≡◌, Bool, true, false, if◌then◌else◌, List, [], ◌∷◌, length, take, sorted,
  sorted-Ascends, sorted-Ascends-apart, weigh, weigh-sorted, ok, ok-injective, err, pos, negsuc,
  refl, sym, ap, ◌∙◌, ◌⊎◌, arith, All,
}
use infotact_python_project.Float.{PriceOrder, FloatOps, same_price}
use infotact_python_project.Engine.{
  Order, Engine, init, add_orders, get_order_book_snapshot, first_price,
}
use infotact_python_project.Engine.Sorting.{total}
use infotact_python_project.Engine.Fills.{volume}
use infotact_python_project.Engine.Conservation.{bought_all, sold_all, add_orders_conserve}
use infotact_python_project.Engine.Uncrossed.{AboveBid, add_orders-IsValid}
use infotact_python_project.Metrics.{depth_from, total_qty}
use infotact_python_project.Metrics.Depth.{
  IsLadder, apart, apart_sym, shown_at-depth_from, depth_from-total, depth_from-apart,
}
use infotact_python_project.Monitor.Book.{
  OrderBookTop, negative_depth, top_of, bid_le, ask_le, depth_map, sorted_bids, sorted_asks,
  spread_of, get_top_of_book,
}

module _ {ℓ} {P : Type ℓ} ⦃o : PriceOrder P⦄ where
  ladder :
      (le : P × ℕ → P × ℕ → Bool) (orders : List (Order P))
      → ((a b : P × ℕ) → (le a b ≡ true) ⊎ (le b a ≡ true))
      → ((a b c : P × ℕ) → le a b ≡ true → le b c ≡ true → le a c ≡ true)
      → IsLadder le orders (sorted le (depth_map orders))
  unfolding depth_map
  ladder le orders tot tr = record {
    sorted_levels = sorted-Ascends le tot tr (depth_from [] orders);
    distinct = sorted-Ascends-apart le apart apart_sym _ (depth_from-apart [] orders tt);
    shown = λ p. omega (
      arith,
      weigh-sorted le (λ (a : P × ℕ). if same_price a.0 p then a.1 else 0) (depth_from [] orders),
      shown_at-depth_from p [] orders,
    );
  }

  depth_map-total :
      (orders : List (Order P)) → weigh (λ a. a.1) (depth_map orders) ≡ total_qty orders
  unfolding depth_map
  depth_map-total orders = omega (arith, depth_from-total [] orders)

  -- What is shown at a depth: each side as a ladder, cut off, and the totals and counts.
  abbrev pub Shows : ℕ → Engine P → OrderBookTop P → Type ℓ
  Shows depth e t =
      ((bids : List (P × ℕ)) × IsLadder bid_le e.buy_orders bids × (t.bid_levels ≡ take depth bids))
      × ((asks : List (P × ℕ)) × IsLadder ask_le e.sell_orders asks
          × (t.ask_levels ≡ take depth asks))
      × (t.total_bid_qty ≡ total_qty e.buy_orders)
      × (t.total_ask_qty ≡ total_qty e.sell_orders)
      × (t.bid_order_count ≡ length e.buy_orders)
      × (t.ask_order_count ≡ length e.sell_orders)

  top_of-Shows :
      (f : FloatOps P) (depth : ℕ) (e : Engine P) (t : OrderBookTop P)
      → get_top_of_book f (pos depth) e ≡ ok t
      → Shows depth e t
  unfolding get_top_of_book sorted_bids sorted_asks
  top_of-Shows f depth e t h = rw (sym (ok-injective _ t h)) (
    (
      sorted_bids e.buy_orders,
      ladder bid_le e.buy_orders (λ a b. o.le_total b.0 a.0)
          (λ a b c x y. o.le_trans c.0 b.0 a.0 y x),
      refl,
    ),
    (
      sorted_asks e.sell_orders,
      ladder ask_le e.sell_orders (λ a b. o.le_total a.0 b.0)
          (λ a b c x y. o.le_trans a.0 b.0 c.0 x y),
      refl,
    ),
    depth_map-total e.buy_orders,
    depth_map-total e.sell_orders,
    refl,
    refl,
  )

  -- Each side of the book is shown as a ladder with the best price first, no price twice and at
  -- every price what the orders there ask for, cut off at the depth; and the totals and counts
  -- are those of the whole side. There is an answer at any depth but a negative one, which is
  -- refused.
  pub get_top_of_book_lem :
      (f : FloatOps P) (depth : ℕ) (e : Engine P)
      → ((t : OrderBookTop P) × (get_top_of_book f (pos depth) e ≡ ok t) × Shows depth e t)
        × ((n : ℕ) → get_top_of_book f (negsuc n) e ≡ err negative_depth)
  unfolding get_top_of_book
  get_top_of_book_lem f depth e = (
    (
      top_of f depth e (spread_of f (get_order_book_snapshot e).0 (get_order_book_snapshot e).1),
      refl,
      top_of-Shows f depth e
          (top_of f depth e
            (spread_of f (get_order_book_snapshot e).0 (get_order_book_snapshot e).1))
          refl,
    ),
    λ n. refl,
  )

  total-eq-total_qty : (orders : List (Order P)) → total orders ≡ total_qty orders
  unfolding total
  total-eq-total_qty [] = refl
  total-eq-total_qty (a ∷ orders) = omega (arith, total-eq-total_qty orders)

  spread_uncrossed :
      (f : FloatOps P) (bids asks : List (Order P))
      → All (λ b. AboveBid b.price asks) bids
      → (spread_of f (first_price bids) (first_price asks)).is_crossed ≡ false
  unfolding spread_of first_price
  spread_uncrossed f [] asks h = refl
  spread_uncrossed f (b ∷ bids) [] h = refl
  spread_uncrossed f (b ∷ bids) (a ∷ asks) h = h.0.0

  -- Whatever stream of orders the engine has taken, the dashboard does not report a crossed book,
  -- and what it reports to rest in all, with what was traded, makes up what was ordered on each
  -- side.
  pub never_crossed :
      (f : FloatOps P) (orders : List (Order P)) (depth : ℕ) (t : OrderBookTop P)
      → get_top_of_book f (pos depth) (add_orders orders (init P)) ≡ ok t
      → (t.is_crossed ≡ false)
        × (t.total_bid_qty + volume (add_orders orders (init P)).trades ≡ bought_all orders)
        × (t.total_ask_qty + volume (add_orders orders (init P)).trades ≡ sold_all orders)
  unfolding get_top_of_book get_order_book_snapshot
  never_crossed f orders depth t h =
      let e = add_orders orders (init P) in
      let (_, _, bids, asks, _, _) = top_of-Shows f depth e t h in
      let crossed : t.is_crossed
          ≡ (spread_of f (first_price e.buy_orders) (first_price e.sell_orders)).is_crossed =
        ap (λ s. s.is_crossed) (sym (ok-injective _ t h)) in
      (
        crossed
            ∙ spread_uncrossed f e.buy_orders e.sell_orders (add_orders-IsValid orders).uncrossed,
        omega (arith, bids, add_orders_conserve orders, total-eq-total_qty e.buy_orders),
        omega (arith, asks, add_orders_conserve orders, total-eq-total_qty e.sell_orders),
      )

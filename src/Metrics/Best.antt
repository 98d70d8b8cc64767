-- ===== src/Metrics/Best.antt =====
-- The best prices of `OrderBookAnalytics.snapshot` (src/analysis/metrics.py), by scanning,
-- against those that the engine reports, from the front of its lists
-- (src/engine/matching_engine.py).
use infotact_python_project.Prelude.{
  Bool, true, false, none, ◌==◌, if◌then◌else◌, some, List, [], ◌∷◌, ◌≡◌, refl, inl, inr, Option,
  Bool-cases, All, arith,
}
use infotact_python_project.Float.{PriceOrder, FloatOps, same_price, max_float, min_float}
use infotact_python_project.Engine.{
  Order, Engine, buy, add_order, first_price, get_order_book_snapshot,
}
use infotact_python_project.Engine.Snapshot.{snapshot_fresh}
use infotact_python_project.Metrics.{snapshot, highest, lowest, max_price, min_price}

module _ {ℓ} {P : Type ℓ} ⦃o : PriceOrder P⦄ where
  -- `highest` is above its start and all orders, and below whatever is.
  highest_least :
      (p q : P) (orders : List (Order P))
      → o.le p q ≡ true
      → All (λ a. o.le a.price q ≡ true) orders
      → o.le (highest p orders) q ≡ true
  unfolding highest
  highest_least p q [] h k = h
  highest_least p q (a ∷ orders) h k =
      highest_least (max_float p a.price) q orders (ground (arith, k.0)) k.1

  highest-ge : (p : P) (orders : List (Order P)) → o.le p (highest p orders) ≡ true
  unfolding highest
  highest-ge p [] = ground (arith, o.le_total p p)
  highest-ge p (a ∷ orders) =
      o.le_trans p (max_float p a.price) _ (ground (arith, o.le_total p p, o.le_total p a.price))
        (highest-ge (max_float p a.price) orders)

  lowest_greatest :
      (p q : P) (orders : List (Order P))
      → o.le q p ≡ true
      → All (λ a. o.le q a.price ≡ true) orders
      → o.le q (lowest p orders) ≡ true
  unfolding lowest
  lowest_greatest p q [] h k = h
  lowest_greatest p q (a ∷ orders) h k =
      lowest_greatest (min_float p a.price) q orders (ground (arith, k.0)) k.1

  lowest-le : (p : P) (orders : List (Order P)) → o.le (lowest p orders) p ≡ true
  unfolding lowest
  lowest-le p [] = ground (arith, o.le_total p p)
  lowest-le p (a ∷ orders) =
      o.le_trans _ (min_float p a.price) p (lowest-le (min_float p a.price) orders)
        (ground (arith, o.le_total p p, o.le_total p a.price))

  -- Two sides without a price, or two prices that are equal.
  abbrev pub same_best : Option P → Option P → Bool
  same_best none none = true
  same_best none (some r) = false
  same_best (some p) none = false
  same_best (some p) (some r) = same_price p r

  bid_agrees :
      (orders : List (Order P))
      → ((q : P) → first_price orders ≡ some q → All (λ b. o.le b.price q ≡ true) orders)
      → same_best (first_price orders) (max_price orders) ≡ true
  unfolding first_price max_price
  bid_agrees [] best = refl
  bid_agrees (a ∷ orders) best = ground (
    arith,
    highest-ge a.price orders,
    highest_least a.price a.price orders (ground (arith, o.le_total a.price a.price))
        (best a.price refl).1,
  )

  ask_agrees :
      (orders : List (Order P))
      → ((q : P) → first_price orders ≡ some q → All (λ s. o.le q s.price ≡ true) orders)
      → same_best (first_price orders) (min_price orders) ≡ true
  unfolding first_price min_price
  ask_agrees [] best = refl
  ask_agrees (a ∷ orders) best = ground (
    arith,
    lowest-le a.price orders,
    lowest_greatest a.price a.price orders (ground (arith, o.le_total a.price a.price))
        (best a.price refl).1,
  )

  -- The side that an order meets: of the bids and the asks, the one that it takes from.
  abbrev pub opposite : Order P → Option P → Option P → Option P
  opposite order bid ask = if order.side == buy then ask else bid

  -- On the side that an order has met, the scan for the best price (the highest bid after a SELL,
  -- the lowest ask after a BUY) finds a price exactly if the engine reports one, and then an
  -- equal one.
  pub snapshot_agrees :
      (f : FloatOps P) (order : Order P) (e : Engine P)
      → let after = add_order order e in
        same_best
          (opposite order (get_order_book_snapshot after).0 (get_order_book_snapshot after).1)
          (opposite order (snapshot f after).best_bid (snapshot f after).best_ask)
        ≡ true
  unfolding get_order_book_snapshot snapshot
  snapshot_agrees f order e = elim (Bool-cases (order.side == buy)) [
    | inl b ↦ rw b (ask_agrees (add_order order e).sell_orders ((snapshot_fresh order e).1 b))
    | inr b ↦ rw b (bid_agrees (add_order order e).buy_orders ((snapshot_fresh order e).0 b))
  ]

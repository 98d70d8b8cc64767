-- ===== src/Engine/Snapshot.antt =====
-- `get_order_book_snapshot` (src/engine/matching_engine.py) against the best prices that rest.
use infotact_python_project.Prelude.{
  ◌<◌, true, false, ◌==◌, List, [], ◌∷◌, ◌++◌, ◌≡◌, refl, subst, ap, arith, some, All, All-map,
  All-last, lt→ltb,
}
use infotact_python_project.Float.{PriceOrder}
use infotact_python_project.Engine.{
  Order, Engine, buy, buy_trade, sell_trade, add_order, first_price, crosses,
  get_order_book_snapshot,
}
use infotact_python_project.Engine.Sorting.{All-sort, IsSorted, sort-IsSorted, key_lt-le, dual}
use infotact_python_project.Engine.Fills.{sweep-IsSorted}
use infotact_python_project.Engine.Sweep.{sweep}
use infotact_python_project.Engine.Steps.{
  buy_walk, sell_walk, add_order-after_buy, add_order-after_sell,
}
use infotact_python_project.Engine.Uncrossed.{AboveBid, rest_remainder_more}
use mathlib.Core.Option.{some-injective}

module _ {ℓ} {P : Type ℓ} ⦃o : PriceOrder P⦄ where
  -- The reported price is at least as good as every price that rests on its side.
  abbrev pub ReportsBestBid : Engine P → Type ℓ
  ReportsBestBid e =
      (p : P)
      → (get_order_book_snapshot e).0 ≡ some p
      → All (λ b. o.le b.price p ≡ true) e.buy_orders

  abbrev pub ReportsBestAsk : Engine P → Type ℓ
  ReportsBestAsk e =
      (p : P)
      → (get_order_book_snapshot e).1 ≡ some p
      → All (λ s. o.le p s.price ≡ true) e.sell_orders

  le_refl : (p : P) → o.le p p ≡ true
  le_refl p = ground (arith, o.le_total p p)

  -- The first price of a sorted side is at least as good as all of them.
  first_best :
      (q : PriceOrder P) (book : List (Order P)) (p : P)
      → IsSorted q.le book
      → first_price book ≡ some p
      → All (λ b. q.le p b.price ≡ true) book
  unfolding first_price
  first_best q [] p s h = tt
  first_best q (a ∷ book) p s h =
      subst (λ r. All (λ b. q.le r b.price ≡ true) (a ∷ book)) (some-injective a.price p h)
        (ground (arith, q.le_total a.price a.price), All-map _ _ book (key_lt-le q a) s.0)

  -- After an incoming SELL the reported bid is the highest resting one, and after an incoming BUY
  -- the reported ask is the lowest.
  pub snapshot_fresh :
      (order : Order P) (e : Engine P)
      → ((order.side == buy) ≡ false → ReportsBestBid (add_order order e))
        × ((order.side == buy) ≡ true → ReportsBestAsk (add_order order e))
  unfolding get_order_book_snapshot
  snapshot_fresh order e = (
    λ h. rw (add_order-after_sell order e h) λ p.
        first_best (dual o) (sell_walk order e).book p
          (sweep-IsSorted (dual o) sell_trade order _ (sort-IsSorted (dual o) e.buy_orders)),
    λ h. rw (add_order-after_buy order e h) λ p.
        first_best o (buy_walk order e).book p
          (sweep-IsSorted o buy_trade order _ (sort-IsSorted o e.sell_orders)),
  )

  unmatched :
      (order : Order P) (book : List (Order P))
      → AboveBid order.price book
      → (sweep o.le buy_trade order book).order ≡ order
  unfolding sweep crosses
  unmatched order [] h = refl
  unmatched order (best ∷ rest) h = rw h.0 (ground arith)

  -- A BUY below every resting sale, and better than the bid at the front, rests behind it: the
  -- snapshot goes on to report the worse bid.
  pub snapshot_stale :
      (order b : Order P) (bs : List (Order P)) (e : Engine P)
      → (order.side == buy) ≡ true
      → 0 < order.quantity
      → AboveBid order.price e.sell_orders
      → e.buy_orders ≡ b ∷ bs
      → o.le order.price b.price ≡ false
      → ((get_order_book_snapshot (add_order order e)).0 ≡ some b.price)
        × (¬ ReportsBestBid (add_order order e))
  unfolding get_order_book_snapshot first_price
  snapshot_stale order b bs e side live above front better = (
    ap first_price rests,
    λ r. worse (All-last _ (b ∷ bs) order (rw rests at (r b.price (ap first_price rests)))),
  )
    where
      rests : (add_order order e).buy_orders ≡ (b ∷ bs) ++ (order ∷ [])
      rests = rw (
        add_order-after_buy order e side,
        unmatched order _ (All-sort o.le _ e.sell_orders above),
        rest_remainder_more order e.buy_orders (lt→ltb 0 order.quantity live),
        front,
      )

      worse : o.le order.price b.price ≡ true → ⊥
      worse h = cc

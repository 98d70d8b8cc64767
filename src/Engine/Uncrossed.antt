-- ===== src/Engine/Uncrossed.antt =====
-- The well-formed book of src/engine/matching_engine.py: every resting order is live, and no
-- resting purchase would accept the price of a resting sale.
use infotact_python_project.Prelude.{
  ◌<◌, true, false, ltb, ◌==◌, List, [], ◌∷◌, ◌++◌, ◌≡◌, arith, Bool-cases, inl, inr, All,
  All-append, All-map,
}
use infotact_python_project.Float.{PriceOrder}
use infotact_python_project.Engine.{
  Order, Engine, buy, buy_trade, sell_trade, sort, rest_remainder, add_order, add_orders, init, ge,
}
use infotact_python_project.Engine.Sorting.{All-sort, sort-IsSorted, dual}
use infotact_python_project.Engine.Fills.{IsLive, sweep-All, sweep-IsLive, sweep_stops, sweep_order}
use infotact_python_project.Engine.Steps.{
  buy_walk, sell_walk, add_order-after_buy, add_order-after_sell,
}

module _ {ℓ} {P : Type ℓ} ⦃o : PriceOrder P⦄ where
  -- The sales that a purchase at `p` does not accept.
  abbrev pub AboveBid : P → List (Order P) → Type 0
  AboveBid p sells = All (λ s. o.le s.price p ≡ false) sells

  pub record IsValid (e : Engine P) : Type 0 where
    pub live_buys : All IsLive e.buy_orders
    pub live_sells : All IsLive e.sell_orders
    pub uncrossed : All (λ b. AboveBid b.price e.sell_orders) e.buy_orders

  rest_remainder-All {κ} :
      (Q : Order P → Type κ) (order : Order P) (own : List (Order P))
      → All Q own
      → (0 < order.quantity → Q order)
      → All Q (rest_remainder order own)
  unfolding rest_remainder
  rest_remainder-All Q order own h q = elim (Bool-cases (ltb 0 order.quantity)) [
    | inl more ↦ rw more (All-append Q own (order ∷ []) h (q (ground arith), tt))
    | inr spent ↦ rw spent h
  ]

  rest_remainder_spent :
      (order : Order P) (own : List (Order P)) → order.quantity ≡ 0 → rest_remainder order own ≡ own
  unfolding rest_remainder
  rest_remainder_spent order own h = ground arith

  pub rest_remainder_more :
      (order : Order P) (own : List (Order P))
      → ltb 0 order.quantity ≡ true
      → rest_remainder order own ≡ own ++ (order ∷ [])
  unfolding rest_remainder
  rest_remainder_more order own h = rw h

  -- The two conditions on one purchase, taken together over the book.
  join_sells :
      (order : Order P) (sells bids : List (Order P))
      → All (λ b. AboveBid b.price sells) bids
      → All (λ b. o.le order.price b.price ≡ false) bids
      → All (λ b. AboveBid b.price (sells ++ (order ∷ []))) bids
  join_sells order sells [] h k = tt
  join_sells order sells (b ∷ bids) h k = (
    All-append (λ s. o.le s.price b.price ≡ false) sells (order ∷ []) h.0 (k.0, tt),
    join_sells order sells bids h.1 k.1,
  )

  buy_walk-uncrossed :
      (order : Order P) (e : Engine P)
      → IsValid e
      → All
          (λ b. AboveBid b.price (buy_walk order e).book)
          (rest_remainder (buy_walk order e).order e.buy_orders)
  buy_walk-uncrossed order e v =
      rest_remainder-All _ (buy_walk order e).order e.buy_orders
        (All-map _ _ e.buy_orders
          (λ b h.
            sweep-All o.le buy_trade (λ p. o.le p b.price ≡ false) order _
              (All-sort o.le _ e.sell_orders h))
          v.uncrossed)
        (λ more.
          rw (sweep_order o.le buy_trade order (sort o.le e.sell_orders))
            elim (sweep_stops o buy_trade order _ (sort-IsSorted o e.sell_orders)) [
              | inl spent ↦ absurd (omega arith)
              | inr above ↦ above
            ])

  sell_walk-uncrossed :
      (order : Order P) (e : Engine P)
      → IsValid e
      → All
          (λ b. AboveBid b.price (rest_remainder (sell_walk order e).order e.sell_orders))
          (sell_walk order e).book
  sell_walk-uncrossed order e v =
      elim (sweep_stops (dual o) sell_trade order _ (sort-IsSorted (dual o) e.buy_orders)) [
        | inl spent ↦ rw (rest_remainder_spent (sell_walk order e).order e.sell_orders spent) old
        | inr below ↦ elim (Bool-cases (ltb 0 (sell_walk order e).order.quantity)) [
          | inr spent ↦
              rw (rest_remainder_spent (sell_walk order e).order e.sell_orders (ground arith)) old
          | inl more ↦ rw (rest_remainder_more (sell_walk order e).order e.sell_orders more) (
              join_sells (sell_walk order e).order e.sell_orders (sell_walk order e).book old
                (rw (sweep_order ge sell_trade order (sort ge e.buy_orders)) below))
        ]
      ]
    where
      old : All (λ b. AboveBid b.price e.sell_orders) (sell_walk order e).book
      old =
          sweep-All ge sell_trade (λ p. AboveBid p e.sell_orders) order _
            (All-sort ge (λ b. AboveBid b.price e.sell_orders) e.buy_orders v.uncrossed)

  -- `add_order` keeps the book well formed: live orders only, and never crossed.
  pub add_order-IsValid : (order : Order P) (e : Engine P) → IsValid e → IsValid (add_order order e)
  add_order-IsValid order e v = elim (Bool-cases (order.side == buy)) [
    | inl b ↦ rw (add_order-after_buy order e b) (record {
      live_buys = rest_remainder-All IsLive (buy_walk order e).order _ v.live_buys (λ h. h);
      live_sells =
          sweep-IsLive o.le buy_trade order _ (All-sort o.le IsLive e.sell_orders v.live_sells);
      uncrossed = buy_walk-uncrossed order e v;
    })
    | inr s ↦ rw (add_order-after_sell order e s) (record {
      live_buys = sweep-IsLive ge sell_trade order _ (All-sort ge IsLive e.buy_orders v.live_buys);
      live_sells = rest_remainder-All IsLive (sell_walk order e).order _ v.live_sells (λ h. h);
      uncrossed = sell_walk-uncrossed order e v;
    })
  ]

  init-IsValid : IsValid (init P)
  unfolding init
  init-IsValid = record { live_buys = tt; live_sells = tt; uncrossed = tt }

  add_orders-IsValid_from :
      (orders : List (Order P)) (e : Engine P) → IsValid e → IsValid (add_orders orders e)
  unfolding add_orders
  add_orders-IsValid_from [] e v = v
  add_orders-IsValid_from (order ∷ orders) e v =
      add_orders-IsValid_from orders (add_order order e) (add_order-IsValid order e v)

  -- From the empty engine, after any stream of orders: every resting order has shares left, and
  -- the book is uncrossed, that is, every resting sale asks more than every resting purchase
  -- bids.
  pub add_orders-IsValid : (orders : List (Order P)) → IsValid (add_orders orders (init P))
  add_orders-IsValid orders = add_orders-IsValid_from orders (init P) init-IsValid

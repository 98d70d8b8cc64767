-- ===== src/Engine/Conservation.antt =====
-- No share is lost or made up by `add_order` (src/engine/matching_engine.py).
use infotact_python_project.Prelude.{
  ℕ, ◌+◌, if◌then◌else◌, ◌==◌, List, [], ◌∷◌, ◌≡◌, refl, arith, Bool-cases, inl, inr,
}
use infotact_python_project.Float.{PriceOrder}
use infotact_python_project.Engine.{
  Order, Engine, buy, buy_trade, sell_trade, sort, rest_remainder, add_order, add_orders, init, ge,
}
use infotact_python_project.Engine.Sorting.{total, total-sort}
use infotact_python_project.Engine.Fills.{
  volume, volume-nil, volume-append, total-append, sweep-shares,
}
use infotact_python_project.Engine.Steps.{
  buy_walk, sell_walk, add_order-after_buy, add_order-after_sell,
}

module _ {ℓ} {P : Type ℓ} where
  -- The shares that a stream of orders asks to buy, and those that it offers.
  abbrev pub bought : Order P → ℕ
  bought order = if order.side == buy then order.quantity else 0

  abbrev pub sold : Order P → ℕ
  sold order = if order.side == buy then 0 else order.quantity

  abbrev pub bought_all : List (Order P) → ℕ
  bought_all [] = 0
  bought_all (order ∷ orders) = bought order + bought_all orders

  abbrev pub sold_all : List (Order P) → ℕ
  sold_all [] = 0
  sold_all (order ∷ orders) = sold order + sold_all orders

  total-rest_remainder :
      (order : Order P) (own : List (Order P))
      → total (rest_remainder order own) ≡ total own + order.quantity
  unfolding rest_remainder total
  total-rest_remainder order own = ground (arith, total-append own (order ∷ []))

  pub buy_trade-qty : (a b : Order P) (n : ℕ) → (buy_trade a b n).qty ≡ n
  unfolding buy_trade
  buy_trade-qty a b n = refl

  pub sell_trade-qty : (a b : Order P) (n : ℕ) → (sell_trade a b n).qty ≡ n
  unfolding sell_trade
  sell_trade-qty a b n = refl

module _ {ℓ} {P : Type ℓ} ⦃o : PriceOrder P⦄ where
  -- On either side of the market, resting and traded shares grow by the incoming quantity, and by
  -- nothing on the other side.
  pub add_order_conserves :
      (order : Order P) (e : Engine P)
      → (total (add_order order e).buy_orders + volume (add_order order e).trades
          ≡ total e.buy_orders + volume e.trades + bought order)
        × (total (add_order order e).sell_orders + volume (add_order order e).trades
            ≡ total e.sell_orders + volume e.trades + sold order)
  add_order_conserves order e = elim (Bool-cases (order.side == buy)) [
    | inl b ↦
        rw (add_order-after_buy order e b, b)
          (omega (
            arith,
            sweep-shares o.le buy_trade buy_trade-qty order (sort o.le e.sell_orders),
            total-sort o.le e.sell_orders,
            volume-append e.trades (buy_walk order e).trades,
            total-rest_remainder (buy_walk order e).order e.buy_orders,
          ))
    | inr s ↦
        rw (add_order-after_sell order e s, s)
          (omega (
            arith,
            sweep-shares ge sell_trade sell_trade-qty order (sort ge e.buy_orders),
            total-sort ge e.buy_orders,
            volume-append e.trades (sell_walk order e).trades,
            total-rest_remainder (sell_walk order e).order e.sell_orders,
          ))
  ]

  add_orders_conserve_from :
      (orders : List (Order P)) (e : Engine P)
      → (total (add_orders orders e).buy_orders + volume (add_orders orders e).trades
          ≡ total e.buy_orders + volume e.trades + bought_all orders)
        × (total (add_orders orders e).sell_orders + volume (add_orders orders e).trades
            ≡ total e.sell_orders + volume e.trades + sold_all orders)
  unfolding add_orders
  add_orders_conserve_from [] e = omega arith
  add_orders_conserve_from (order ∷ orders) e =
      omega
        (arith, add_orders_conserve_from orders (add_order order e), add_order_conserves order e)

  -- From the empty engine, after any stream of orders: the shares that rest to be bought and the
  -- shares traded make up all that were ordered to be bought, and so for the shares on sale.
  pub add_orders_conserve :
      (orders : List (Order P))
      → (total (add_orders orders (init P)).buy_orders + volume (add_orders orders (init P)).trades
          ≡ bought_all orders)
        × (total (add_orders orders (init P)).sell_orders
              + volume (add_orders orders (init P)).trades
            ≡ sold_all orders)
  unfolding init total
  add_orders_conserve orders = omega (arith, volume-nil P, add_orders_conserve_from orders (init P))

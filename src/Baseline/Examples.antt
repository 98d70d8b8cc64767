-- ===== src/Baseline/Examples.antt =====
-- The baseline matcher and the engine on one stream of orders.
use infotact_python_project.Prelude.{ℕ, List, [], ◌∷◌, map, length, ◌≡◌, arith}
use infotact_python_project.Float.Cents.{Cents, cents_format}
use infotact_python_project.Processor.{Text}
use infotact_python_project.Engine
use infotact_python_project.Engine.{init}
use infotact_python_project.Baseline.{Order, buy_side, new_book, add_orders}
use infotact_python_project.Baseline.Rounds.{engine_order, engine_of}
use infotact_python_project.Baseline.Equivalent.{baseline_equivalent}

abbrev sell_side : Text
sell_side = b's' ∷ b'e' ∷ b'l' ∷ b'l' ∷ []

abbrev order_of : ℕ → Text → Cents → ℕ → Order Cents
order_of n side price qty = record {
  order_id = n;
  side = side;
  price = price;
  qty = qty;
  timestamp = n;
}

abbrev orders : List (Order Cents)
orders =
    order_of 1 sell_side (10050, omega arith) 30
    ∷ order_of 2 sell_side (10000, omega arith) 20
    ∷ order_of 3 buy_side (10050, omega arith) 35
    ∷ []

baseline_equivalent_example :
    Engine.add_orders ⦃o = cents_format.order⦄ (map engine_order orders) (init Cents)
    ≡ engine_of (length orders) (add_orders ⦃o = cents_format.order⦄ orders (new_book Cents))
baseline_equivalent_example = baseline_equivalent ⦃o = cents_format.order⦄ orders

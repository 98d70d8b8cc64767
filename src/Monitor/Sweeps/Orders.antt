-- ===== src/Monitor/Sweeps/Orders.antt =====
-- A submitted order (src/monitor/latency_monitor.py) against its fills in the engine: when it is
-- reported as a sweep, and what the report says.
use infotact_python_project.Prelude.{
  ℕ, ◌≤◌, ◌≡◌, if◌then◌else◌, List, ◌∷◌, ◌++◌, refl, ap, sym, ◌∙◌, ◌==◌, some, Bool-cases, inl, inr,
  arith,
}
use infotact_python_project.Float.{PriceOrder, FloatOps}
use infotact_python_project.Engine.{
  Order, Engine, Trade, add_order, buy, buy_trade, sell_trade, sort, ge,
}
use infotact_python_project.Engine.Fills.{volume, volume-append, sweep-shares}
use infotact_python_project.Engine.Conservation.{buy_trade-qty, sell_trade-qty}
use infotact_python_project.Engine.Steps.{
  buy_walk, sell_walk, add_order-after_buy, add_order-after_sell,
}
use infotact_python_project.Monitor.{
  Monitor, OrderInfo, Times, seen_price, add_event, append_bounded, on_order_submitted,
  engine_trade_count,
}
use infotact_python_project.Monitor.Orders.{count_fills, no_fills, dispatch, submit, sweep_event}
use infotact_python_project.Monitor.Tracked.{inspect_order-Watched}
use infotact_python_project.Monitor.Sweeps.{Distinct, traded_at}
use infotact_python_project.Monitor.Sweeps.Detect.{count_fills-Counts, detect_sweep_lem, is_sweep}

module _ {ℓ} {P : Type ℓ} ⦃o : PriceOrder P⦄ where
  -- The order that the engine is handed.
  abbrev pub order_of : OrderInfo P → ℕ → Order P
  order_of i side = record {
    order_id = i.order_id;
    side = side;
    price = i.price;
    quantity = i.quantity;
    timestamp = i.timestamp_ns;
  }

  -- The fills of an order are within its quantity.
  volume-fills :
      (order : Order P) (e : Engine P) (fills : List (Trade P))
      → (add_order order e).trades ≡ e.trades ++ fills
      → volume fills ≤ order.quantity
  volume-fills order e fills h = elim (Bool-cases (order.side == buy)) [
    | inl b ↦ omega (
      arith,
      volume-append e.trades fills,
      volume-append e.trades (buy_walk order e).trades,
      ap volume (sym h ∙ ap (λ s. s.trades) (add_order-after_buy order e b)),
      sweep-shares o.le buy_trade buy_trade-qty order (sort o.le e.sell_orders),
    )
    | inr s ↦ omega (
      arith,
      volume-append e.trades fills,
      volume-append e.trades (sell_walk order e).trades,
      ap volume (sym h ∙ ap (λ s. s.trades) (add_order-after_sell order e s)),
      sweep-shares ge sell_trade sell_trade-qty order (sort ge e.buy_orders),
    )
  ]

  module _ {κ} {G : Type κ} (f : FloatOps P) where
    -- The monitor when the engine has taken the order.
    abbrev pub dispatched : OrderInfo P → ℕ → Times → Monitor P G → Monitor P G
    dispatched i side times m =
        dispatch f i side times (on_order_submitted f i (record m { last_order_info = some i }))

    noted_lem :
        (i : OrderInfo P) (m : Monitor P G)
        → let noted = on_order_submitted f i (record m { last_order_info = some i }) in
          (noted.engine ≡ m.engine) × (noted.sweep_min_levels ≡ m.sweep_min_levels)
    unfolding on_order_submitted
    noted_lem i m =
        let noted = record m {
          last_order_info = some i;
          rolling_order_quantities = append_bounded 200 m.rolling_order_quantities i.quantity;
        } in
        let w = inspect_order-Watched f i noted in
        (ap (λ n. n.engine) w.same, ap (λ n. n.sweep_min_levels) w.same)

    -- An order that the engine fills by the trades `t ∷ later` is reported as a sweep exactly if
    -- these are at enough distinct prices and of at least the threshold's shares. The prices
    -- counted are those of the trades, each once, from the first on; the shares are all of the
    -- trades', and within the order's quantity. The check is on, that is, at least one level is
    -- asked for.
    pub submit_sweep :
        (i : OrderInfo P) (side : ℕ) (times : Times) (m : Monitor P G) (t : Trade P)
        (later : List (Trade P))
        → 1 ≤ m.sweep_min_levels
        → (add_order (order_of i side) m.engine).trades ≡ m.engine.trades ++ (t ∷ later)
        → let c = count_fills f (no_fills f) (t ∷ later) in
          let d = dispatched i side times m in
          (levels : List P) × (c.levels ≡ t.price ∷ levels)
          × Distinct c.levels
          × ((p : P) → seen_price p c.levels ≡ traded_at p (t ∷ later))
          × (c.executed ≡ volume (t ∷ later))
          × (c.executed ≤ i.quantity)
          × (submit f i side times m
              ≡ (if is_sweep f d c then add_event f (sweep_event f i t.price levels c) d else d))
    unfolding submit engine_trade_count
    submit_sweep i side times m t later asked fills =
        let noted = on_order_submitted f i (record m { last_order_info = some i }) in
        let (same, min) = noted_lem i m in
        let c = count_fills-Counts f (no_fills f) (t ∷ later) in
        let tape : (dispatched i side times m).engine.trades ≡ noted.engine.trades ++ (t ∷ later) =
          unfold dispatch in
          (ap (λ e. (add_order (order_of i side) e).trades) same
            ∙ fills
            ∙ ap (λ e. e.trades ++ (t ∷ later)) (sym same)) in
        let still : 1 ≤ (dispatched i side times m).sweep_min_levels =
          unfold dispatch in omega (arith, min) in
        let (levels, first, e) =
          detect_sweep_lem f i (dispatched i side times m) noted.engine.trades t later still tape in
        (
          levels,
          first,
          c.distinct tt,
          λ p. c.seen p ∙ (unfold seen_price in refl),
          c.executed ∙ omega arith,
          omega (arith, c.executed, volume-fills (order_of i side) m.engine (t ∷ later) fills),
          e,
        )

-- ===== src/Simulator/Orders.antt =====
-- The orders of `MockMarketSimulator.generate` (src/analysis/simulator.py): their numbers, their
-- ranges, that the data processor takes them, and that a reset repeats them.
use infotact_python_project.Prelude.{
  ℕ, zero, suc, ◌+◌, ◌≤◌, Bool, true, false, ◌||◌, ◌==◌, none, List, [], ◌∷◌, length, ◌≡◌, refl, ap,
  All, arith, Bool-cases, inl, inr, pos, ℤ, ok, ◌∙◌,
}
use infotact_python_project.Float.{PriceFormat, FloatOps, less, is_positive}
use infotact_python_project.Bytes.{bytes_eq}
use infotact_python_project.Processor.{buy_text, sell_text, Request, create_order, upper}
use infotact_python_project.Processor.Create.{created, create_order-Accepts}
use infotact_python_project.Simulator.{
  Random, MockOrder, Simulator, init, reset, side_at, mock_price, mock_quantity, next_order,
  generate,
}

-- The identifiers are `i`, `i + 1` and so on.
abbrev pub Numbered {ℓ} : {P : Type ℓ} → ℕ → List (MockOrder P) → Type 0
Numbered i [] = Unit
Numbered i (order ∷ orders) = (order.order_id ≡ i) × Numbered (i + 1) orders

-- What the data processor is handed: the order as a request.
abbrev pub request_of {ℓ} : {P : Type ℓ} → MockOrder P → Request P
request_of order = record {
  order_id = pos order.order_id;
  side = order.side;
  price = order.price;
  quantity = pos order.quantity;
}

module _ {ℓ} {P : Type ℓ} (p : PriceFormat P) (f : FloatOps P) where
  -- `round` of a price of 1.0 or more is positive.
  abbrev pub RoundsUp : Type ℓ
  RoundsUp = (x : P) → p.order.le (f.float 1) x ≡ true → is_positive p (f.round_2 x) ≡ true

module _ {ℓ κ} {P : Type ℓ} {G : Type κ} (p : PriceFormat P) (f : FloatOps P) (r : Random P G) where
  -- A quantity of a common order or of a whale, and a request of which `create_order` makes the
  -- order as it stands, with the reading of its clock.
  abbrev pub IsFair : ℤ → MockOrder P → Type ℓ
  IsFair now order =
      ((1 ≤ order.quantity) × (order.quantity ≤ 2000))
      × (create_order p (request_of order) none now
          ≡ ok (record {
            order_id = pos order.order_id;
            side = order.side;
            price = order.price;
            quantity = pos order.quantity;
            timestamp_ns = now;
          }))

  upper-side_at : (index : ℕ) → upper (side_at index) ≡ side_at index
  unfolding side_at upper
  upper-side_at index = elim (Bool-cases (index == 0)) [ inl e ↦ rw e refl | inr e ↦ rw e refl ]

  pub mock_quantity_bounds :
      (whale : Bool) (g : G)
      → (1 ≤ (mock_quantity ⦃o = p.order⦄ f r whale g).0)
        × ((mock_quantity ⦃o = p.order⦄ f r whale g).0 ≤ 2000)
  unfolding mock_quantity
  mock_quantity_bounds true g = omega (arith, r.randint_bounds 500 2000 g (omega arith))
  mock_quantity_bounds false g = omega (arith, r.randint_bounds 1 100 g (omega arith))

  pub mock_price_positive :
      RoundsUp p f
      → (base drift : P) → is_positive p (mock_price ⦃o = p.order⦄ f r base drift) ≡ true
  unfolding mock_price
  mock_price_positive up base drift = up _ (
      ground (
        arith,
        p.order.le_total (f.float 1) (f.float 1),
        p.order.le_total (f.float 1) (f.add base drift),
      ))

  next_order-IsFair :
      RoundsUp p f
      → (now : ℤ) (whale_prob : P) (s : Simulator P G)
      → IsFair now (next_order ⦃o = p.order⦄ f r whale_prob s).0
  unfolding next_order side_at bytes_eq upper
  next_order-IsFair up now whale_prob s = (
    bounds,
    create_order-Accepts p (request_of drawn) none now (record {
      side = side_ok (r.choice 2 s.rng).0;
      order_id = refl;
      price = mock_price_positive up s.base_price _;
      quantity = ground (arith, bounds);
    })
        ∙ ap (λ side. ok (record (created p (request_of drawn) none now) { side = side }))
            (upper-side_at (r.choice 2 s.rng).0),
  )
    where
      drawn : MockOrder P
      drawn = (next_order ⦃o = p.order⦄ f r whale_prob s).0

      g2 : P × G
      g2 = r.gauss (f.float 0) (f.div (f.float 8) (f.float 10)) (r.choice 2 s.rng).1

      bounds :
          (1 ≤ (next_order ⦃o = p.order⦄ f r whale_prob s).0.quantity)
          × ((next_order ⦃o = p.order⦄ f r whale_prob s).0.quantity ≤ 2000)
      bounds =
          mock_quantity_bounds (less ⦃o = p.order⦄ (r.uniform g2.1).0 whale_prob) (r.uniform g2.1).1

      side_ok :
          (index : ℕ)
          → (bytes_eq (upper (side_at index)) buy_text
              || bytes_eq (upper (side_at index)) sell_text)
            ≡ true
      side_ok index = elim (Bool-cases (index == 0)) [ inl e ↦ rw e refl | inr e ↦ rw e refl ]

  -- What a call of `generate` leaves alone, and how far it counts.
  generate_state :
      (n : ℕ) (whale_prob : P) (s : Simulator P G)
      → let t = (generate ⦃o = p.order⦄ f r n whale_prob s).1 in
        (t.seed ≡ s.seed) × (t.base_price ≡ s.base_price) × (t.next_id ≡ s.next_id + n)
  unfolding generate next_order
  generate_state zero whale_prob s = (refl, refl, omega arith)
  generate_state (suc n) whale_prob s =
      let t = (next_order ⦃o = p.order⦄ f r whale_prob s).1 in
      let (a, b, c) = generate_state n whale_prob t in (a, b, omega (arith, c))

  -- The orders are numbered on from the next identifier, as many as asked for; every quantity
  -- lies between 1 and 2000, and `create_order` of the data processor, at any clock reading, makes
  -- each of them an order with its identifier, side, price and quantity. This takes a generator
  -- within its bounds, and rounding that keeps a price of 1.0 or more positive.
  pub generate_lem :
      RoundsUp p f
      → (now : ℤ) (n : ℕ) (whale_prob : P) (s : Simulator P G)
      → let (orders, t) = generate ⦃o = p.order⦄ f r n whale_prob s in
        (length orders ≡ n)
        × Numbered s.next_id orders
        × (t.next_id ≡ s.next_id + n)
        × All (IsFair now) orders
  unfolding generate next_order
  generate_lem up now zero whale_prob s = (refl, tt, omega arith, tt)
  generate_lem up now (suc n) whale_prob s =
      let t = (next_order ⦃o = p.order⦄ f r whale_prob s).1 in
      let (a, b, c, d) = generate_lem up now n whale_prob t in
      (
        ap suc a,
        (refl, b),
        (generate_state (suc n) whale_prob s).2,
        (next_order-IsFair up now whale_prob s, d),
      )

  -- A reset after any run of the generator gives again the orders of a new simulator with the seed.
  pub generate-reset :
      (n k seed : ℕ) (base whale_prob : P)
      → generate ⦃o = p.order⦄ f r n whale_prob (
          reset ⦃o = p.order⦄ f r none
            (generate ⦃o = p.order⦄ f r k whale_prob (init ⦃o = p.order⦄ f r seed base)).1)
        ≡ generate ⦃o = p.order⦄ f r n whale_prob (init ⦃o = p.order⦄ f r seed base)
  unfolding reset init
  generate-reset n k seed base whale_prob =
      let (a, b, _) = generate_state k whale_prob (init ⦃o = p.order⦄ f r seed base) in
      rw (a, b) refl

-- ===== src/Processor/Create.antt =====
-- What `create_order` (src/data_processing/processor.py) accepts, and what it refuses.
use infotact_python_project.Prelude.{
  true, false, ◌||◌, Option, none, some, ok, err, ℤ, is_negative, is_nonpositive, ◌≡◌, ◌⊎◌, inl,
  inr, Bool-cases,
}
use infotact_python_project.Bytes.{bytes_eq}
use infotact_python_project.Float.{PriceFormat, is_positive}
use infotact_python_project.Processor.{
  Error, Order, Request, upper, create_order, buy_text, sell_text, bad_side, bad_order_id,
  bad_price, bad_quantity,
}

module _ {ℓ} {P : Type ℓ} (f : PriceFormat P) where
  -- A side that reads BUY or SELL in any case, a non-negative identifier, a positive price and a
  -- positive quantity.
  pub record Accepts (r : Request P) : Type 0 where
    pub side : (bytes_eq (upper r.side) buy_text || bytes_eq (upper r.side) sell_text) ≡ true
    pub order_id : is_negative r.order_id ≡ false
    pub price : is_positive f r.price ≡ true
    pub quantity : is_nonpositive r.quantity ≡ false

  abbrev pub created : Request P → Option ℤ → ℤ → Order P
  created r timestamp_ns now = record {
    order_id = r.order_id;
    side = upper r.side;
    price = r.price;
    quantity = r.quantity;
    timestamp_ns = elim timestamp_ns [ none ↦ now | some t ↦ t ];
  }

  pub create_order-Accepts :
      (r : Request P) (t : Option ℤ) (now : ℤ)
      → Accepts r
      → create_order f r t now ≡ ok (created r t now)
  unfolding create_order
  create_order-Accepts r t now a = rw (a.side, a.order_id, a.price, a.quantity)

  pub create_order_cases :
      (r : Request P) (t : Option ℤ) (now : ℤ)
      → Accepts r ⊎ ((e : Error) × (create_order f r t now ≡ err e))
  unfolding create_order
  create_order_cases r t now =
      elim (Bool-cases (bytes_eq (upper r.side) buy_text || bytes_eq (upper r.side) sell_text)) [
        | inr h ↦ inr (bad_side, rw h)
        | inl s ↦ elim (Bool-cases (is_negative r.order_id)) [
          | inl h ↦ inr (bad_order_id, rw (s, h))
          | inr i ↦ elim (Bool-cases (is_positive f r.price)) [
            | inr h ↦ inr (bad_price, rw (s, i, h))
            | inl p ↦ elim (Bool-cases (is_nonpositive r.quantity)) [
              | inl h ↦ inr (bad_quantity, rw (s, i, p, h))
              | inr q ↦ inl (record { side = s; order_id = i; price = p; quantity = q })
            ]
          ]
        ]
      ]

  -- What `create_order` returns is acceptable, and is the request with its side in capitals.
  pub create_order_sound :
      (r : Request P) (t : Option ℤ) (now : ℤ) (o : Order P)
      → create_order f r t now ≡ ok o
      → Accepts r × (o ≡ created r t now)
  create_order_sound r t now o h = elim (create_order_cases r t now) [
    | inl a ↦ (a, cc (create_order-Accepts r t now a))
    | inr (e, k) ↦ absurd (cc)
  ]

  -- `create_order` returns the order with its side in capitals exactly when the request is
  -- acceptable, and raises otherwise.
  pub create_order_iff :
      (r : Request P) (t : Option ℤ) (now : ℤ)
      → (Accepts r → create_order f r t now ≡ ok (created r t now))
        × ((¬ Accepts r) → (e : Error) × (create_order f r t now ≡ err e))
  create_order_iff r t now = (
    create_order-Accepts r t now,
    λ refused. elim (create_order_cases r t now) [
      | inl a ↦ absurd (refused a)
      | inr raised ↦ raised
    ],
  )

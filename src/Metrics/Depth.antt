-- ===== src/Metrics/Depth.antt =====
-- `depth_by_price` (src/analysis/metrics.py): the levels of a side against the orders that rest
-- there.
use infotact_python_project.Prelude.{
  ℕ, ◌+◌, Bool, true, false, not, if◌then◌else◌, List, [], ◌∷◌, ◌≡◌, ◌⊎◌, inl, inr, All, Ascends,
  weigh, weigh-sorted, sorted-Ascends, sorted-Ascends-apart, Ascends-both, Bool-cases, arith,
}
use infotact_python_project.Float.{PriceOrder, same_price, less}
use infotact_python_project.Engine.{Order}
use infotact_python_project.Metrics.{add_depth, depth_from, depth_by_price, item_le, total_qty}

module _ {ℓ} {P : Type ℓ} ⦃o : PriceOrder P⦄ where
  -- What the orders at a price ask for, and what the levels show there.
  abbrev pub ordered_at : P → List (Order P) → ℕ
  ordered_at p = weigh (λ a. if same_price a.price p then a.quantity else 0)

  abbrev pub shown_at : P → List (P × ℕ) → ℕ
  shown_at p = weigh (λ a. if same_price a.0 p then a.1 else 0)

  -- Levels at two prices, and in order of price.
  abbrev pub apart : P × ℕ → P × ℕ → Bool
  apart a b = not (same_price a.0 b.0)

  abbrev pub below : P × ℕ → P × ℕ → Bool
  below a b = less a.0 b.0

  -- A ladder for a side: the first levels of a list that shows at each price what the orders
  -- there ask for.
  pub record IsLadder (le : P × ℕ → P × ℕ → Bool) (orders : List (Order P)) (levels : List (P × ℕ))
      : Type ℓ where
    pub sorted_levels : Ascends le levels
    pub distinct : Ascends apart levels
    pub shown : (p : P) → shown_at p levels ≡ ordered_at p orders

  pub add_depth-total :
      (price : P) (qty : ℕ) (depth : List (P × ℕ))
      → weigh (λ a. a.1) (add_depth price qty depth) ≡ weigh (λ a. a.1) depth + qty
  unfolding add_depth
  add_depth-total price qty [] = omega arith
  add_depth-total price qty ((p, q) ∷ depth) = ground (arith, add_depth-total price qty depth)

  pub depth_from-total :
      (depth : List (P × ℕ)) (orders : List (Order P))
      → weigh (λ a. a.1) (depth_from depth orders) ≡ weigh (λ a. a.1) depth + total_qty orders
  unfolding depth_from
  depth_from-total depth [] = omega arith
  depth_from-total depth (order ∷ orders) = omega (
    arith,
    depth_from-total (add_depth order.price order.quantity depth) orders,
    add_depth-total order.price order.quantity depth,
  )

  same_trans : (a b p : P) → same_price a b ≡ true → same_price a p ≡ same_price b p
  same_trans a b p h =
      ground (arith, o.le_trans a b p, o.le_trans b a p, o.le_trans p a b, o.le_trans p b a)

  shown_at-add_depth :
      (p price : P) (qty : ℕ) (depth : List (P × ℕ))
      → shown_at p (add_depth price qty depth)
        ≡ shown_at p depth + (if same_price price p then qty else 0)
  unfolding add_depth
  shown_at-add_depth p price qty [] = omega arith
  shown_at-add_depth p price qty ((q, n) ∷ depth) = elim (Bool-cases (same_price q price)) [
    | inl e ↦ rw (e, same_trans q price p e) (ground arith)
    | inr e ↦ rw e (omega (arith, shown_at-add_depth p price qty depth))
  ]

  pub shown_at-depth_from :
      (p : P) (depth : List (P × ℕ)) (orders : List (Order P))
      → shown_at p (depth_from depth orders) ≡ shown_at p depth + ordered_at p orders
  unfolding depth_from
  shown_at-depth_from p depth [] = omega arith
  shown_at-depth_from p depth (order ∷ orders) = omega (
    arith,
    shown_at-depth_from p (add_depth order.price order.quantity depth) orders,
    shown_at-add_depth p order.price order.quantity depth,
  )

  pub apart_sym : (a b : P × ℕ) → apart a b ≡ true → apart b a ≡ true
  apart_sym a b h = ground arith

  All-apart-add_depth :
      (a : P × ℕ) (price : P) (qty : ℕ) (depth : List (P × ℕ))
      → same_price a.0 price ≡ false
      → All (λ b. apart a b ≡ true) depth
      → All (λ b. apart a b ≡ true) (add_depth price qty depth)
  unfolding add_depth
  All-apart-add_depth a price qty [] e h = (ground arith, tt)
  All-apart-add_depth a price qty ((p, q) ∷ depth) e h = elim (Bool-cases (same_price p price)) [
    | inl s ↦ rw s h
    | inr s ↦ rw s (h.0, All-apart-add_depth a price qty depth e h.1)
  ]

  add_depth-apart :
      (price : P) (qty : ℕ) (depth : List (P × ℕ))
      → Ascends apart depth
      → Ascends apart (add_depth price qty depth)
  unfolding add_depth
  add_depth-apart price qty [] h = (tt, tt)
  add_depth-apart price qty ((p, q) ∷ depth) h = elim (Bool-cases (same_price p price)) [
    | inl s ↦ rw s h
    | inr s ↦
        rw s (All-apart-add_depth (p, q) price qty depth s h.0, add_depth-apart price qty depth h.1)
  ]

  pub depth_from-apart :
      (depth : List (P × ℕ)) (orders : List (Order P))
      → Ascends apart depth
      → Ascends apart (depth_from depth orders)
  unfolding depth_from
  depth_from-apart depth [] h = h
  depth_from-apart depth (order ∷ orders) h =
      depth_from-apart (add_depth order.price order.quantity depth) orders
        (add_depth-apart order.price order.quantity depth h)

  item_le_total : (a b : P × ℕ) → (item_le a b ≡ true) ⊎ (item_le b a ≡ true)
  item_le_total a b = ground (arith, o.le_total a.0 b.0)

  item_le_trans : (a b c : P × ℕ) → item_le a b ≡ true → item_le b c ≡ true → item_le a c ≡ true
  item_le_trans a b c h k = ground (
    arith,
    o.le_trans a.0 b.0 c.0,
    o.le_trans b.0 c.0 a.0,
    o.le_trans c.0 a.0 b.0,
    o.le_trans c.0 b.0 a.0,
    o.le_trans b.0 a.0 c.0,
    o.le_trans a.0 c.0 b.0,
  )

  -- The levels of a side stand in the strict order of their prices; at every price they show what
  -- the orders at that price ask for, and together what all of them do.
  pub depth_by_price_lem :
      (orders : List (Order P))
      → Ascends below (depth_by_price orders)
        × ((p : P) → shown_at p (depth_by_price orders) ≡ ordered_at p orders)
        × (weigh (λ a. a.1) (depth_by_price orders) ≡ total_qty orders)
  unfolding depth_by_price
  depth_by_price_lem orders = (
    Ascends-both item_le apart below _ (λ a b h k. ground arith)
        (sorted-Ascends item_le item_le_total item_le_trans (depth_from [] orders))
        (sorted-Ascends-apart item_le apart apart_sym _ (depth_from-apart [] orders tt)),
    λ p. omega (
      arith,
      weigh-sorted item_le (λ (a : P × ℕ). if same_price a.0 p then a.1 else 0)
          (depth_from [] orders),
      shown_at-depth_from p [] orders,
    ),
    omega (
      arith,
      weigh-sorted item_le (λ (a : P × ℕ). a.1) (depth_from [] orders),
      depth_from-total [] orders,
    ),
  )

-- ===== src/Simulator.antt =====
-- src/analysis/simulator.py: `MockMarketSimulator`, the seeded source of mock orders. The
-- generator of random numbers is a parameter. A negative count of orders, which gives none, is
-- left out.
pub mod Orders
pub mod Counter
mod Examples
use infotact_python_project.Prelude.{
  ℕ, zero, suc, ◌+◌, ◌≤◌, ◌<◌, Bool, true, false, if◌then◌else◌, ◌==◌, Option, none, some, List, [],
  ◌∷◌, ◌++◌,
}
use infotact_python_project.Float.{PriceOrder, FloatOps, less, max_float}
use infotact_python_project.Processor.{Text, buy_text, sell_text}

-- `random.Random`: each draw gives the value and the generator after it. `choice` draws an index.
pub record Random {ℓ κ} (P : Type ℓ) (G : Type κ) : Type (ℓ ⊔ κ) where
  pub seeded : ℕ → G
  pub choice : ℕ → G → ℕ × G
  pub gauss : P → P → G → P × G
  pub uniform : G → P × G
  pub randint : ℕ → ℕ → G → ℕ × G
  pub randint_bounds :
      (lo hi : ℕ) (g : G) → lo ≤ hi → (lo ≤ (randint lo hi g).0) × ((randint lo hi g).0 ≤ hi)

-- The dictionary of an order.
pub record MockOrder {ℓ} (P : Type ℓ) : Type ℓ where
  pub order_id : ℕ
  pub side : Text
  pub price : P
  pub quantity : ℕ

pub record Simulator {ℓ κ} (P : Type ℓ) (G : Type κ) : Type (ℓ ⊔ κ) where
  pub seed : ℕ
  pub base_price : P
  pub rng : G
  pub next_id : ℕ

-- `["BUY", "SELL"]` at the index drawn.
pub side_at : ℕ → Text
side_at index = if index == 0 then buy_text else sell_text

-- The orders of `timestamped`, with their times from `base` on.
pub stamp {ℓ} : {P : Type ℓ} → ℕ → List (MockOrder P) → List (MockOrder P × ℕ)
stamp base [] = []
stamp base (order ∷ orders) = (order, base) ∷ stamp (base + 1) orders

module _ {ℓ κ} {P : Type ℓ} {G : Type κ} ⦃o : PriceOrder P⦄ (f : FloatOps P) (r : Random P G) where
  pub init : ℕ → P → Simulator P G
  init seed base_price = record {
    seed = seed;
    base_price = base_price;
    rng = r.seeded seed;
    next_id = 1;
  }

  pub reset : Option ℕ → Simulator P G → Simulator P G
  reset none s = record s { rng = r.seeded s.seed; next_id = 1 }
  reset (some seed) s = record s { seed = seed; rng = r.seeded seed; next_id = 1 }

  -- `round(max(1.0, self.base_price + drift), 2)`
  pub mock_price : P → P → P
  mock_price base drift = f.round_2 (max_float (f.float 1) (f.add base drift))

  -- The draw of the quantity: of a whale, or of a common order.
  pub mock_quantity : Bool → G → ℕ × G
  mock_quantity true g = r.randint 500 2000 g
  mock_quantity false g = r.randint 1 100 g

  pub next_order : P → Simulator P G → MockOrder P × Simulator P G
  next_order whale_prob s =
      let (index, g1) = r.choice 2 s.rng in
      let (drift, g2) = r.gauss (f.float 0) (f.div (f.float 8) (f.float 10)) g1 in
      let (u, g3) = r.uniform g2 in
      let (quantity, g4) = mock_quantity (less u whale_prob) g3 in
      (
        record {
          order_id = s.next_id;
          side = side_at index;
          price = mock_price s.base_price drift;
          quantity = quantity;
        },
        record s { rng = g4; next_id = s.next_id + 1 },
      )

  pub generate : ℕ → P → Simulator P G → List (MockOrder P) × Simulator P G
  generate zero whale_prob s = ([], s)
  generate (suc n) whale_prob s =
      let (order, s1) = next_order whale_prob s in
      let (orders, s2) = generate n whale_prob s1 in (order ∷ orders, s2)

  -- The price of the rung `i` of the ladder: below `base + 1.0`, or above `base - 1.0`.
  pub bid_rung : P → ℕ → P
  bid_rung base i =
      f.round_2
        (f.sub (f.add base (f.float 1)) (f.mul (f.float i) (f.div (f.float 5) (f.float 100))))

  pub ask_rung : P → ℕ → P
  ask_rung base i =
      f.round_2
        (f.add (f.sub base (f.float 1)) (f.mul (f.float i) (f.div (f.float 5) (f.float 100))))

  -- The loop of `balanced_book`, from the rung `i` on.
  pub ladder : ℕ → ℕ → Simulator P G → List (MockOrder P) × Simulator P G
  ladder zero i s = ([], s)
  ladder (suc n) i s =
      let (orders, s2) = ladder n (i + 1) (record s { next_id = s.next_id + 2 }) in
      (
        record {
          order_id = s.next_id;
          side = buy_text;
          price = bid_rung s.base_price i;
          quantity = 10;
        }
            ∷ record {
              order_id = s.next_id + 1;
              side = sell_text;
              price = ask_rung s.base_price i;
              quantity = 10;
            }
            ∷ orders,
        s2,
      )

  pub balanced_book : ℕ → Simulator P G → List (MockOrder P) × Simulator P G
  balanced_book n_each_side s = ladder n_each_side 0 s

  pub timestamped : ℕ → ℕ → P → Simulator P G → List (MockOrder P × ℕ) × Simulator P G
  timestamped now_ns n whale_prob s =
      let (orders, s1) = generate n whale_prob s in (stamp now_ns orders, s1)

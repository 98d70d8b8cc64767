-- ===== src/Monitor/Book.antt =====
-- `get_top_of_book` (src/monitor/latency_monitor.py) on the pure Python engine: the best prices,
-- and the levels of both sides up to a depth.
pub mod Levels
use infotact_python_project.Prelude.{
  ℕ, ◌+◌, ◌≤◌, ◌≡◌, min, Bool, true, false, not, ◌&&◌, if◌then◌else◌, Option, none, some, List, [],
  ◌∷◌, length, take, length-take, sorted, Ascends, sorted-Ascends, sorted-Ascends-apart,
  Ascends-both, weigh, weigh-sorted, Result, ok, err, ok-injective, ℤ, pos, negsuc, refl, ◌⊎◌, inl,
  inr, arith, All,
}
use infotact_python_project.Float.{PriceOrder, FloatOps, less, same_price}
use infotact_python_project.Engine.{
  Order, Engine, init, add_orders, get_order_book_snapshot, first_price,
}
use infotact_python_project.Engine.Sorting.{total}
use infotact_python_project.Engine.Fills.{volume}
use infotact_python_project.Engine.Conservation.{bought_all, sold_all, add_orders_conserve}
use infotact_python_project.Engine.Uncrossed.{IsValid, AboveBid, add_orders-IsValid}
use infotact_python_project.Metrics.{depth_from, total_qty}
use infotact_python_project.Metrics.Depth.{
  apart, below, apart_sym, shown_at, ordered_at, shown_at-depth_from, depth_from-total,
  depth_from-apart,
}

pub record OrderBookTop {ℓ} (P : Type ℓ) : Type ℓ where
  pub best_bid : Option P
  pub best_ask : Option P
  pub spread : Option P
  pub spread_bps : Option P
  pub mid_price : Option P
  pub bid_levels : List (P × ℕ)
  pub ask_levels : List (P × ℕ)
  pub total_bid_qty : ℕ
  pub total_ask_qty : ℕ
  pub bid_order_count : ℕ
  pub ask_order_count : ℕ
  pub is_crossed : Bool

-- `ValueError`
pub data Error : Type 0 where
  negative_depth : Error

-- `spread`, `spread_bps`, `mid_price` and `is_crossed`.
pub record Spread {ℓ} (P : Type ℓ) : Type ℓ where
  pub spread : Option P
  pub spread_bps : Option P
  pub mid_price : Option P
  pub is_crossed : Bool

module _ {ℓ} {P : Type ℓ} ⦃o : PriceOrder P⦄ where
  -- The sort keys are `-x[0]` and `x[0]`.
  abbrev pub bid_le : P × ℕ → P × ℕ → Bool
  bid_le a b = o.le b.0 a.0

  abbrev pub ask_le : P × ℕ → P × ℕ → Bool
  ask_le a b = o.le a.0 b.0

  -- The dictionary of a side: what is asked for at each price.
  unfoldable pub depth_map : List (Order P) → List (P × ℕ)
  depth_map orders = depth_from [] orders

  unfoldable pub sorted_bids : List (Order P) → List (P × ℕ)
  sorted_bids buys = sorted bid_le (depth_map buys)

  unfoldable pub sorted_asks : List (Order P) → List (P × ℕ)
  sorted_asks sells = sorted ask_le (depth_map sells)

  module _ (f : FloatOps P) where
    -- The block under `if best_bid is not None and best_ask is not None`.
    unfoldable pub spread_of : Option P → Option P → Spread P
    spread_of (some best_bid) (some best_ask) = record {
      spread = some (f.sub best_ask best_bid);
      mid_price = some (f.div (f.add best_bid best_ask) (f.float 2));
      spread_bps =
          if o.le (f.div (f.add best_bid best_ask) (f.float 2)) (f.float 0)
          then none
          else some (
              f.mul (f.div (f.sub best_ask best_bid) (f.div (f.add best_bid best_ask) (f.float 2)))
                (f.float 10_000));
      is_crossed = o.le best_ask best_bid;
    }
    spread_of (some best_bid) none = record {
      spread = none;
      spread_bps = none;
      mid_price = none;
      is_crossed = false;
    }
    spread_of none best_ask = record {
      spread = none;
      spread_bps = none;
      mid_price = none;
      is_crossed = false;
    }

    abbrev pub top_of : ℕ → Engine P → Spread P → OrderBookTop P
    top_of depth e s = record {
      best_bid = (get_order_book_snapshot e).0;
      best_ask = (get_order_book_snapshot e).1;
      spread = s.spread;
      spread_bps = s.spread_bps;
      mid_price = s.mid_price;
      bid_levels = take depth (sorted_bids e.buy_orders);
      ask_levels = take depth (sorted_asks e.sell_orders);
      total_bid_qty = weigh (λ a. a.1) (depth_map e.buy_orders);
      total_ask_qty = weigh (λ a. a.1) (depth_map e.sell_orders);
      bid_order_count = length e.buy_orders;
      ask_order_count = length e.sell_orders;
      is_crossed = s.is_crossed;
    }

    unfoldable pub get_top_of_book : ℤ → Engine P → Result Error (OrderBookTop P)
    get_top_of_book (negsuc n) e = err negative_depth
    get_top_of_book (pos depth) e =
        ok (top_of depth e (spread_of (get_order_book_snapshot e).0 (get_order_book_snapshot e).1))

-- ===== src/Monitor/Sweeps.antt =====
-- Sweeps (src/monitor/latency_monitor.py): what `_detect_sweep` counts, and when an order is
-- reported as one.
pub mod Detect
pub mod Orders
use infotact_python_project.Prelude.{
  ℕ, zero, suc, ◌+◌, ◌-◌, ◌≤◌, ◌≡◌, Bool, true, false, not, ◌&&◌, ◌||◌, if◌then◌else◌, ltb, leb,
  List, [], ◌∷◌, ◌++◌, length, take, drop, length-append, All, Ascends, refl, ap, sym, ◌∙◌,
  append-nil, append_assoc, Bool-cases, inl, inr, arith, take-append-drop, length-drop, length-take,
}
use infotact_python_project.Float.{PriceOrder, FloatOps, same_price}
use infotact_python_project.Engine.{Trade}
use infotact_python_project.Engine.Fills.{volume}
use infotact_python_project.Monitor.{
  Monitor, WhaleEvent, OrderInfo, Times, Tally, seen_price, last_or, get_current_whale_threshold,
  add_event, on_order_submitted, engine_trade_count,
}
use infotact_python_project.Monitor.Orders.{
  count_fill, count_fills, no_fills, report_sweep, detect_sweep, new_trades, dispatch, submit,
  sweep_event,
}

module _ {ℓ} {P : Type ℓ} ⦃o : PriceOrder P⦄ where
  -- No two of the prices are equal.
  abbrev pub Distinct : List P → Type 0
  Distinct = Ascends (λ a b. not (same_price a b))

  abbrev pub traded_at : P → List (Trade P) → Bool
  traded_at p [] = false
  traded_at p (t ∷ trades) = same_price t.price p || traded_at p trades

  unseen-All :
      (p : P) (levels : List P)
      → seen_price p levels ≡ false
      → All (λ a. not (same_price a p) ≡ true) levels
  unfolding seen_price
  unseen-All p [] h = tt
  unseen-All p (a ∷ levels) h = elim (Bool-cases (same_price a p)) [
    | inl e ↦ absurd (cc)
    | inr e ↦ (ground arith, unseen-All p levels (ground arith))
  ]

  All-snoc :
      (Q : P → Type 0) (p : P) (levels : List P) → All Q levels → Q p → All Q (levels ++ (p ∷ []))
  All-snoc Q p [] h k = (k, tt)
  All-snoc Q p (a ∷ levels) h k = (h.0, All-snoc Q p levels h.1 k)

  Distinct-snoc :
      (p : P) (levels : List P)
      → All (λ a. not (same_price a p) ≡ true) levels
      → Distinct levels
      → Distinct (levels ++ (p ∷ []))
  Distinct-snoc p [] h d = (tt, tt)
  Distinct-snoc p (a ∷ levels) h d = (All-snoc _ p levels d.0 h.0, Distinct-snoc p levels h.1 d.1)

  same_trans : (a b p : P) → same_price a b ≡ true → same_price a p ≡ same_price b p
  same_trans a b p h =
      ground (arith, o.le_trans a b p, o.le_trans b a p, o.le_trans p a b, o.le_trans p b a)

  seen_price-snoc :
      (p q : P) (levels : List P)
      → seen_price p (levels ++ (q ∷ [])) ≡ (seen_price p levels || same_price q p)
  unfolding seen_price
  seen_price-snoc p q [] = ground arith
  seen_price-snoc p q (a ∷ levels) = ground (arith, seen_price-snoc p q levels)

  seen_price-absorbs :
      (p q : P) (levels : List P)
      → seen_price q levels ≡ true
      → (seen_price p levels || same_price q p) ≡ seen_price p levels
  unfolding seen_price
  seen_price-absorbs p q [] h = absurd (cc)
  seen_price-absorbs p q (a ∷ levels) h = elim (Bool-cases (same_price a q)) [
    | inl e ↦ ground (arith, same_trans a q p e)
    | inr e ↦ ground (arith, seen_price-absorbs p q levels (ground arith))
  ]

  -- The levels after a fill at a price.
  abbrev pub count_level : P → List P → List P
  count_level p levels = if seen_price p levels then levels else levels ++ (p ∷ [])

  pub count_level-Distinct :
      (p : P) (levels : List P) → Distinct levels → Distinct (count_level p levels)
  count_level-Distinct p levels d = elim (Bool-cases (seen_price p levels)) [
    | inl e ↦ rw e d
    | inr e ↦ rw e (Distinct-snoc p levels (unseen-All p levels e) d)
  ]

  pub seen_price-count_level :
      (p q : P) (levels : List P)
      → seen_price p (count_level q levels) ≡ (seen_price p levels || same_price q p)
  seen_price-count_level p q levels = elim (Bool-cases (seen_price q levels)) [
    | inl e ↦ rw e (sym (seen_price-absorbs p q levels e))
    | inr e ↦ rw e (seen_price-snoc p q levels)
  ]

  pub length-count_level :
      (p : P) (levels : List P) → length (count_level p levels) ≤ length levels + 1
  length-count_level p levels = ground (arith, length-append levels (p ∷ []))

-- ===== src/Repository/Totals.antt =====
-- `query_aggregate_stats` of src/persistence/repository.py, and how writes move what it reports.
use infotact_python_project.Prelude.{
  ℕ, ◌+◌, ◌^◌, if◌then◌else◌, ltb, List, [], ◌∷◌, ◌++◌, length, length-append, map, Result, ok, err,
  ◌≡◌, arith,
}
use infotact_python_project.Float.{FloatOps}
use infotact_python_project.Repository.{TradeRecord, Database, insert_all}
use infotact_python_project.Repository.Rows.{insert_all-appends}

-- The dictionary that `query_aggregate_stats` returns.
pub record AggregateStats {ℓ} (P : Type ℓ) : Type ℓ where
  pub trade_count : ℕ
  pub total_volume : ℕ
  pub total_notional : P
  pub vwap : P

-- `SUM` of an `INTEGER` column past 63 bits.
pub data QueryFailure : Type 0 where
  integer_overflow : QueryFailure

module _ {ℓ} {P : Type ℓ} where
  -- `SUM(quantity)`, 0 for the `NULL` of an empty table.
  unfoldable pub total_quantity : List (TradeRecord P) → ℕ
  total_quantity [] = 0
  total_quantity (r ∷ rows) = r.quantity + total_quantity rows

  pub total_quantity-append :
      (xs ys : List (TradeRecord P))
      → total_quantity (xs ++ ys) ≡ total_quantity xs + total_quantity ys
  unfolding total_quantity
  total_quantity-append [] ys = omega arith
  total_quantity-append (x ∷ xs) ys = omega (arith, total_quantity-append xs ys)

  -- The rows that a batch adds are what the counts grow by.
  pub insert_all_totals :
      (rows table : List (TradeRecord P))
      → (added : List (TradeRecord P)) × (length (insert_all rows table)
          ≡ length table + length added)
        × (total_quantity (insert_all rows table) ≡ total_quantity table + total_quantity added)
  insert_all_totals rows table =
      let (added, e) = insert_all-appends rows table in
      (added, rw e (length-append table added), rw e (total_quantity-append table added))

  module _ (f : FloatOps P) (sum_notional : List P → P) where
    -- `notional / volume if volume > 0 else 0.0`
    unfoldable pub vwap_of : P → ℕ → P
    vwap_of notional volume = if ltb 0 volume then f.div notional (f.float volume) else f.float 0

    -- `sum_notional` is how SQLite adds floats up; the `NULL` of an empty table is 0.
    unfoldable pub total_notional : List (TradeRecord P) → P
    total_notional [] = f.float 0
    total_notional (r ∷ rows) = sum_notional (map (λ row. row.notional) (r ∷ rows))

    unfoldable pub query_aggregate_stats : Database P → Result QueryFailure (AggregateStats P)
    query_aggregate_stats d =
        if ltb (total_quantity d.matched_trades) (2 ^ 63)
        then ok (record {
          trade_count = length d.matched_trades;
          total_volume = total_quantity d.matched_trades;
          total_notional = total_notional d.matched_trades;
          vwap = vwap_of (total_notional d.matched_trades) (total_quantity d.matched_trades);
        })
        else err integer_overflow

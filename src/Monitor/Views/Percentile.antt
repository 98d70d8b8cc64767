-- ===== src/Monitor/Views/Percentile.antt =====
-- The two percentiles, `calculate_percentile` (src/monitor/latency_monitor.py) and `percentile`
-- (src/analysis/metrics.py).
use infotact_python_project.Prelude.{
  ℕ, ◌-◌, ◌≤◌, ◌<◌, ◌≡◌, false, leb, List, [], ◌∷◌, length, sorted, length-sorted, insert_before,
  refl, ap, sym, ◌∙◌, arith, ◌⊎◌, inl, inr,
}
use infotact_python_project.Float.{PriceOrder, FloatOps, RoundingLaws}
use infotact_python_project.Metrics.Latency.{percentile, ranked, rank_of, low_index, high_index}
use infotact_python_project.Monitor.{calculate_percentile, clamp_pct}

module _ {ℓ} {P : Type ℓ} ⦃o : PriceOrder P⦄ (f : FloatOps P) where
  -- Strictly between 0 and 100.
  abbrev pub IsInner : P → Type 0
  IsInner pct = (o.le pct (f.float 0) ≡ false) × (o.le (f.float 100) pct ≡ false)

  clamp_pct_inner : (pct : P) → IsInner pct → clamp_pct f pct ≡ pct
  clamp_pct_inner pct h = rw (h.1, h.0) refl

  -- With two entries or more the entries are interpolated.
  calculate_percentile-ranked :
      (xs : List ℕ) (pct : P)
      → 2 ≤ length xs
      → calculate_percentile f xs pct ≡ ranked f xs (clamp_pct f pct)
  unfolding calculate_percentile
  calculate_percentile-ranked [] pct h = absurd (omega arith)
  calculate_percentile-ranked (x ∷ []) pct h = absurd (omega arith)
  calculate_percentile-ranked (x ∷ y ∷ xs) pct h = refl

  agrees :
      (values : List ℕ) (pct : P)
      → IsInner pct
      → percentile f values pct ≡ calculate_percentile f (sorted leb values) pct
  unfolding percentile calculate_percentile
  agrees [] pct h = unfold sorted in refl
  agrees (x ∷ []) pct h = unfold sorted insert_before in refl
  agrees (x ∷ y ∷ values) pct h =
      rw (h.0, h.1)
        (sym (
          calculate_percentile-ranked (sorted leb (x ∷ y ∷ values)) pct
            (omega (arith, length-sorted leb (x ∷ y ∷ values)))
          ∙ ap (ranked f (sorted leb (x ∷ y ∷ values))) (clamp_pct_inner pct h)))

  low_in_range :
      RoundingLaws o f
      → (values : List ℕ) (pct : P) → IsInner pct
      → low_index f values pct ≤ length values - 1
  unfolding low_index rank_of
  low_in_range laws values pct h = laws.truncate_le _ (length values - 1) (
      laws.mul_le (f.div pct (f.float 100)) (length values - 1)
        (laws.div_le_one pct (ground (arith, o.le_total pct (f.float 100), h.1))))

  -- Strictly between 0 and 100, the percentile of the analytics is that of the dashboard on the
  -- values in order; and of one value or more, the two entries that it goes by are in the list.
  pub percentile_agrees :
      RoundingLaws o f
      → (values : List ℕ) (pct : P) → IsInner pct
      → (percentile f values pct ≡ calculate_percentile f (sorted leb values) pct)
        × ((values ≡ [])
            ⊎ ((low_index f (sorted leb values) pct < length values)
                × (high_index f (sorted leb values) pct < length values)))
  percentile_agrees laws [] pct h = (agrees [] pct h, inl refl)
  percentile_agrees laws (x ∷ values) pct h =
      let low = low_in_range laws (sorted leb (x ∷ values)) pct h in
      let size = length-sorted leb (x ∷ values) in
      (
        agrees (x ∷ values) pct h,
        inr (omega (arith, low, size), unfold high_index in omega (arith, size)),
      )

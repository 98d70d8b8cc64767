-- ===== src/Metrics/Latency.antt =====
-- `LatencyTracker` of src/analysis/metrics.py: latencies, their percentiles, and the throughput.
-- The values of `percentile` are the latencies, whole numbers of nanoseconds.
use infotact_python_project.Prelude.{
  ℕ, suc, ◌+◌, ◌-◌, min, max, if◌then◌else◌, leb, ◌==◌, Option, none, some, List, [], ◌∷◌, ◌++◌,
  length, get_or, sorted,
}
use infotact_python_project.Float.{PriceOrder, FloatOps}

pub record LatencyTracker : Type 0 where
  pub latencies_ns : List ℕ
  pub start_ns : Option ℕ
  pub end_ns : Option ℕ

-- The dictionary of `stats`.
pub record Stats {ℓ} (P : Type ℓ) : Type ℓ where
  pub count : ℕ
  pub min_ns : ℕ
  pub max_ns : ℕ
  pub mean_ns : P
  pub p50_ns : P
  pub p95_ns : P
  pub p99_ns : P
  pub min_us : P
  pub max_us : P
  pub mean_us : P
  pub p50_us : P
  pub p95_us : P
  pub p99_us : P
  pub throughput_ops : P

abbrev pub sum : List ℕ → ℕ
sum [] = 0
sum (x ∷ xs) = x + sum xs

-- `min` and `max` of a list that is not empty.
abbrev pub min_of : ℕ → List ℕ → ℕ
min_of x [] = x
min_of x (y ∷ ys) = min_of (min x y) ys

abbrev pub max_of : ℕ → List ℕ → ℕ
max_of x [] = x
max_of x (y ∷ ys) = max_of (max x y) ys

pub start : ℕ → LatencyTracker → LatencyTracker
start now_ns t = record t { start_ns = some now_ns }

pub stop : ℕ → LatencyTracker → LatencyTracker
stop now_ns t = record t { end_ns = some now_ns }

pub add : ℕ → LatencyTracker → LatencyTracker
add latency_ns t = record t { latencies_ns = t.latencies_ns ++ (latency_ns ∷ []) }

pub extend : List ℕ → LatencyTracker → LatencyTracker
extend latencies t = record t { latencies_ns = t.latencies_ns ++ latencies }

pub clear : LatencyTracker → LatencyTracker
clear t = record { latencies_ns = []; start_ns = none; end_ns = none }

module _ {ℓ} {P : Type ℓ} (f : FloatOps P) where
  -- The value between the entries `low` and `high`, at the fraction `frac`. Both indexes are in
  -- range, so the default of `get_or` is not used.
  unfoldable pub interpolate : List ℕ → ℕ → ℕ → P → P
  interpolate ordered low high frac =
      f.add (f.mul (f.float (get_or ordered low 0)) (f.sub (f.float 1) frac))
        (f.mul (f.float (get_or ordered high 0)) frac)

  -- `(pct / 100.0) * (len(ordered) - 1)`
  unfoldable pub rank_of : List ℕ → P → P
  rank_of ordered pct = f.mul (f.div pct (f.float 100)) (f.float (length ordered - 1))

  unfoldable pub low_index : List ℕ → P → ℕ
  low_index ordered pct = f.truncate (rank_of ordered pct)

  unfoldable pub high_index : List ℕ → P → ℕ
  high_index ordered pct = min (low_index ordered pct + 1) (length ordered - 1)

  unfoldable pub ranked : List ℕ → P → P
  ranked ordered pct =
      interpolate ordered (low_index ordered pct) (high_index ordered pct)
        (f.sub (rank_of ordered pct) (f.float (low_index ordered pct)))

  -- Nanoseconds in microseconds, of a whole number and of a float.
  abbrev pub us : P → P
  us ns = f.div ns (f.float 1000)

  unfoldable pub throughput : LatencyTracker → P
  throughput t = elapsed t.start_ns t.end_ns
    where
      rate : ℕ → P
      rate ns =
          if ns == 0
          then f.float 0
          else f.div (f.float (length t.latencies_ns)) (f.div (f.float ns) (f.float 1_000_000_000))

      elapsed : Option ℕ → Option ℕ → P
      elapsed (some started) (some ended) = rate (ended - started)
      elapsed (some started) none = f.float 0
      elapsed none ended = f.float 0

module _ {ℓ} {P : Type ℓ} ⦃o : PriceOrder P⦄ (f : FloatOps P) where
  unfoldable pub percentile : List ℕ → P → P
  percentile [] pct = f.float 0
  percentile (x ∷ []) pct = f.float x
  percentile (x ∷ y ∷ values) pct =
      if o.le pct (f.float 0)
      then f.float (get_or ordered 0 0)
      else if o.le (f.float 100) pct
      then f.float (get_or ordered (length ordered - 1) 0)
      else ranked f ordered pct
    where
      ordered : List ℕ
      ordered = sorted leb (x ∷ y ∷ values)

  -- `statistics.fmean` is the exact sum over the count.
  unfoldable pub stats : LatencyTracker → Stats P
  stats t = with_units (base t.latencies_ns)
    where
      base : List ℕ → Stats P
      base [] = record {
        count = 0;
        min_ns = 0;
        max_ns = 0;
        mean_ns = f.float 0;
        p50_ns = f.float 0;
        p95_ns = f.float 0;
        p99_ns = f.float 0;
        min_us = f.float 0;
        max_us = f.float 0;
        mean_us = f.float 0;
        p50_us = f.float 0;
        p95_us = f.float 0;
        p99_us = f.float 0;
        throughput_ops = f.float 0;
      }
      base (x ∷ xs) = record {
        count = suc (length xs);
        min_ns = min_of x xs;
        max_ns = max_of x xs;
        mean_ns = f.div (f.float (sum (x ∷ xs))) (f.float (suc (length xs)));
        p50_ns = percentile (x ∷ xs) (f.float 50);
        p95_ns = percentile (x ∷ xs) (f.float 95);
        p99_ns = percentile (x ∷ xs) (f.float 99);
        min_us = f.float 0;
        max_us = f.float 0;
        mean_us = f.float 0;
        p50_us = f.float 0;
        p95_us = f.float 0;
        p99_us = f.float 0;
        throughput_ops = f.float 0;
      }

      with_units : Stats P → Stats P
      with_units s = record s {
        min_us = us f (f.float s.min_ns);
        max_us = us f (f.float s.max_ns);
        mean_us = us f s.mean_ns;
        p50_us = us f s.p50_ns;
        p95_us = us f s.p95_ns;
        p99_us = us f s.p99_ns;
        throughput_ops = throughput f t;
      }

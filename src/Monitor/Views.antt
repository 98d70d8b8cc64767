-- ===== src/Monitor/Views.antt =====
-- The latency statistics that the dashboard shows (src/monitor/latency_monitor.py), with their
-- sparkline.
pub mod Percentile
mod Examples
use infotact_python_project.Prelude.{
  ℕ, zero, suc, ◌+◌, ◌-◌, ◌≡◌, min, Bool, true, false, not, ◌||◌, if◌then◌else◌, ltb, leb, ◌==◌,
  Option, none, some, List, [], ◌∷◌, ◌++◌, length, map, drop, replicate, get_or, sorted,
}
use infotact_python_project.Float.{PriceOrder, FloatOps, same_price, max_float, min_float}
use infotact_python_project.Processor.{Text}
use infotact_python_project.Engine.{Trade}
use infotact_python_project.Metrics.{traded_qty, notional_from}
use infotact_python_project.Metrics.Latency.{sum, us}
use infotact_python_project.Monitor.{
  Monitor, WhaleEvent, EventType, OrderInfo, resting_order, matched_trade, whale_sweep, last_or,
  calculate_percentile, get_current_whale_threshold,
}
use mathlib.Core.List.{reverse}

-- `xs[-n:]`, which is the whole list for 0.
unfoldable pub last_n {ℓ} : {A : Type ℓ} → ℕ → List A → List A
last_n n xs = if n == 0 then xs else drop (length xs - n) xs

pub record LatencyStats {ℓ} (P : Type ℓ) : Type ℓ where
  pub count : ℕ
  pub last_ns : ℕ
  pub min_ns : ℕ
  pub max_ns : ℕ
  pub mean_ns : P
  pub p50_ns : P
  pub p95_ns : P
  pub p99_ns : P
  pub throughput_ops : P
  pub rolling_mean_ns : P
  pub sparkline : Text

-- The bars of a sparkline, by their code points, in ASCII and in Unicode.
abbrev pub bars : Bool → Text
bars true = b'.' ∷ b'_' ∷ b'-' ∷ b'=' ∷ b'+' ∷ b'*' ∷ b'#' ∷ []
bars false = b' ' ∷ b' ' ∷ 0x2582 ∷ 0x2583 ∷ 0x2584 ∷ 0x2585 ∷ 0x2586 ∷ 0x2587 ∷ 0x2588 ∷ []

module _ {ℓ} {P : Type ℓ} (f : FloatOps P) where
  unfoldable pub last_us : LatencyStats P → P
  last_us s = us f (f.float s.last_ns)

  unfoldable pub min_us : LatencyStats P → P
  min_us s = us f (f.float s.min_ns)

  unfoldable pub max_us : LatencyStats P → P
  max_us s = us f (f.float s.max_ns)

  unfoldable pub mean_us : LatencyStats P → P
  mean_us s = us f s.mean_ns

  unfoldable pub p50_us : LatencyStats P → P
  p50_us s = us f s.p50_ns

  unfoldable pub p95_us : LatencyStats P → P
  p95_us s = us f s.p95_ns

  unfoldable pub p99_us : LatencyStats P → P
  p99_us s = us f s.p99_ns

  unfoldable pub rolling_mean_us : LatencyStats P → P
  rolling_mean_us s = us f s.rolling_mean_ns

  -- `sum(xs) / len(xs)`
  unfoldable pub mean : List ℕ → P
  mean xs = f.div (f.float (sum xs)) (f.float (length xs))

module _ {ℓ} {P : Type ℓ} ⦃o : PriceOrder P⦄ where
  abbrev pub lowest_of : P → List P → P
  lowest_of p [] = p
  lowest_of p (q ∷ qs) = lowest_of (min_float p q) qs

  abbrev pub highest_of : P → List P → P
  highest_of p [] = p
  highest_of p (q ∷ qs) = highest_of (max_float p q) qs

module _ {ℓ} {P : Type ℓ} ⦃o : PriceOrder P⦄ (f : FloatOps P) where
  -- The bar of a value between `lo` and `hi`.
  unfoldable pub bar : Text → P → P → P → ℕ
  bar chars lo hi v =
      get_or chars
        (min (f.truncate (f.mul (f.div (f.sub v lo) (f.sub hi lo)) (f.float (length chars - 1))))
          (length chars - 1))
        0

  -- The body of `generate_sparkline` on the values that are left.
  unfoldable pub draw_bars : Text → List P → Text
  draw_bars chars [] = []
  draw_bars chars (v ∷ values) =
      if same_price (highest_of v values) (lowest_of v values)
      then replicate (length (v ∷ values)) (get_or chars 0 0)
      else map (bar chars (lowest_of v values) (highest_of v values)) (v ∷ values)

  unfoldable pub generate_sparkline : List P → ℕ → Bool → Text
  generate_sparkline [] width ascii = replicate width b'.'
  generate_sparkline (v ∷ values) width ascii = draw_bars (bars ascii) (last_n width (v ∷ values))

  -- `(time.perf_counter_ns() - self._start_time_ns) / 1e9`
  abbrev pub seconds_since : ℕ → ℕ → P
  seconds_since now_ns start_ns = f.div (f.float (now_ns - start_ns)) (f.float 1_000_000_000)

  module _ {κ} {G : Type κ} where
    -- The statistics of the latencies in ascending order.
    unfoldable pub stats_of : ℕ → List ℕ → Monitor P G → LatencyStats P
    stats_of now_ns [] m = record {
      count = 0;
      last_ns = 0;
      min_ns = 0;
      max_ns = 0;
      mean_ns = f.float 0;
      p50_ns = f.float 0;
      p95_ns = f.float 0;
      p99_ns = f.float 0;
      throughput_ops = f.float 0;
      rolling_mean_ns = f.float 0;
      sparkline = replicate 15 0xB7;
    }
    stats_of now_ns (x ∷ xs) m = record {
      count = length m.all_latencies_ns;
      last_ns = m.last_latency_ns;
      min_ns = x;
      max_ns = last_or x xs;
      mean_ns = mean f (x ∷ xs);
      p50_ns = calculate_percentile f (x ∷ xs) (f.float 50);
      p95_ns = calculate_percentile f (x ∷ xs) (f.float 95);
      p99_ns = calculate_percentile f (x ∷ xs) (f.float 99);
      throughput_ops = f.div (f.float (length m.all_latencies_ns)) (
          max_float (f.div (f.float 1) (f.float 1_000_000_000))
            (seconds_since now_ns m.start_time_ns));
      rolling_mean_ns =
          if length m.rolling_latencies_ns == 0 then f.float 0 else mean f m.rolling_latencies_ns;
      sparkline = generate_sparkline (map (λ ns. us f (f.float ns)) m.rolling_latencies_ns) 18 true;
    }

    -- The call of `generate_sparkline` leaves `ascii_only` at its default, `True`.
    unfoldable pub get_latency_stats : ℕ → Monitor P G → LatencyStats P
    get_latency_stats now_ns m = stats_of now_ns (sorted leb m.all_latencies_ns) m

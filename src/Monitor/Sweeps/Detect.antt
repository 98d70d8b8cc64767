-- ===== src/Monitor/Sweeps/Detect.antt =====
-- `_detect_sweep` (src/monitor/latency_monitor.py) without its short cuts, and after the call of
-- the engine.
use infotact_python_project.Prelude.{
  ℕ, zero, suc, ◌+◌, ◌-◌, ◌≤◌, ◌<◌, ◌≡◌, Bool, false, ◌&&◌, ◌||◌, if◌then◌else◌, ltb, leb, List, [],
  ◌∷◌, ◌++◌, length, take, drop, length-append, refl, ap, sym, ◌∙◌, append-nil, append_assoc,
  Bool-cases, inl, inr, arith,
}
use infotact_python_project.Float.{PriceOrder, FloatOps}
use infotact_python_project.Engine.{Trade}
use infotact_python_project.Engine.Fills.{volume}
use infotact_python_project.Monitor.{
  Monitor, OrderInfo, Tally, seen_price, get_current_whale_threshold, add_event, engine_trade_count,
}
use infotact_python_project.Monitor.Orders.{
  count_fill, count_fills, no_fills, report_sweep, detect_sweep, new_trades, sweep_event,
}
use infotact_python_project.Monitor.Sweeps.{
  Distinct, traded_at, count_level-Distinct, seen_price-count_level, length-count_level,
}

take-length {ℓ} : {A : Type ℓ} (xs : List A) (n : ℕ) → length xs ≤ n → take n xs ≡ xs
take-length [] zero h = refl
take-length [] (suc n) h = refl
take-length (x ∷ xs) zero h = absurd (omega arith)
take-length (x ∷ xs) (suc n) h = ap (◌∷◌ x) (take-length xs n (omega arith))

drop-length_append {ℓ} : {A : Type ℓ} (xs ys : List A) → drop (length xs) (xs ++ ys) ≡ ys
drop-length_append [] ys = refl
drop-length_append (x ∷ xs) ys = drop-length_append xs ys

module _ {ℓ} {P : Type ℓ} ⦃o : PriceOrder P⦄ (f : FloatOps P) where
  -- What the loop of `_detect_sweep` adds to a count.
  pub record Counts (c c' : Tally P) (trades : List (Trade P)) : Type ℓ where
    pub more : List P
    pub prefix : c'.levels ≡ c.levels ++ more
    pub executed : c'.executed ≡ c.executed + volume trades
    pub distinct : Distinct c.levels → Distinct c'.levels
    pub seen : (p : P) → seen_price p c'.levels ≡ (seen_price p c.levels || traded_at p trades)
    pub few : length c'.levels ≤ length c.levels + length trades

  count_fill-more :
      (c : Tally P) (t : Trade P) → (more : List P) × ((count_fill f c t).levels ≡ c.levels ++ more)
  unfolding count_fill
  count_fill-more c t = elim (Bool-cases (seen_price t.price c.levels)) [
    | inl e ↦ ([], rw (e, append-nil c.levels) refl)
    | inr e ↦ (t.price ∷ [], rw e refl)
  ]

  pub count_fills-Counts :
      (c : Tally P) (trades : List (Trade P)) → Counts c (count_fills f c trades) trades
  unfolding count_fills count_fill volume
  count_fills-Counts c [] = record {
    more = [];
    prefix = sym (append-nil c.levels);
    executed = omega arith;
    distinct = λ d. d;
    seen = λ p. ground arith;
    few = omega arith;
  }
  count_fills-Counts c (t ∷ trades) =
      let rest = count_fills-Counts (count_fill f c t) trades in
      let (one, e) = count_fill-more c t in
      record {
        more = one ++ rest.more;
        prefix = rest.prefix ∙ ap (λ l. l ++ rest.more) e ∙ append_assoc c.levels one rest.more;
        executed = rest.executed ∙ omega arith;
        distinct = λ d. rest.distinct (count_level-Distinct t.price c.levels d);
        seen = λ p. rest.seen p ∙ ground (arith, seen_price-count_level p t.price c.levels);
        few = omega (arith, rest.few, length-count_level t.price c.levels);
      }

  module _ {κ} {G : Type κ} where
    new_trades_lem :
        (m : Monitor P G) (before fills : List (Trade P))
        → m.engine.trades ≡ before ++ fills
        → new_trades f (length before) m ≡ fills
    unfolding new_trades engine_trade_count
    new_trades_lem m before fills e =
        rw (e, drop-length_append before fills, length-append before fills)
          (take-length fills (length before + length fills - length before) (omega arith))

    report_sweep_few :
        (i : OrderInfo P) (levels : List P) (c : Tally P) (m : Monitor P G)
        → length levels < m.sweep_min_levels
        → report_sweep f i levels c m ≡ m
    unfolding report_sweep
    report_sweep_few i [] c m h = refl
    report_sweep_few i (p ∷ levels) c m h = ground arith

    -- With at least one level asked for, the short cut leaves out only what would not be reported.
    detect_sweep-report_sweep :
        (i : OrderInfo P) (m : Monitor P G) (before fills : List (Trade P))
        → 1 ≤ m.sweep_min_levels
        → m.engine.trades ≡ before ++ fills
        → let c = count_fills f (no_fills f) fills in
          detect_sweep f i (length before) m ≡ report_sweep f i c.levels c m
    unfolding detect_sweep engine_trade_count
    detect_sweep-report_sweep i m before fills some_level e =
        let asked : ltb m.sweep_min_levels 1 ≡ false = ground arith in
        let k = count_fills-Counts (no_fills f) fills in
        let count : length m.engine.trades ≡ length before + length fills =
          ap length e ∙ length-append before fills in
        rw (asked, new_trades_lem m before fills e)
          elim (Bool-cases (ltb (length m.engine.trades - length before) m.sweep_min_levels)) [
            | inl short ↦ rw short (sym (report_sweep_few i _ _ m (ground (arith, k.few, count))))
            | inr long ↦ rw long refl
          ]

    abbrev pub is_sweep : Monitor P G → Tally P → Bool
    is_sweep m c =
        leb m.sweep_min_levels (length c.levels) && leb (get_current_whale_threshold f m) c.executed

    -- An order whose fills start with `t` is reported as a sweep exactly if they are at enough
    -- levels, and of enough shares.
    pub detect_sweep_lem :
        (i : OrderInfo P) (m : Monitor P G) (before : List (Trade P)) (t : Trade P)
        (later : List (Trade P))
        → 1 ≤ m.sweep_min_levels
        → m.engine.trades ≡ before ++ (t ∷ later)
        → let c = count_fills f (no_fills f) (t ∷ later) in
          (levels : List P) × (c.levels ≡ t.price ∷ levels)
          × (detect_sweep f i (length before) m
              ≡ (if is_sweep m c then add_event f (sweep_event f i t.price levels c) m else m))
    unfolding report_sweep
    detect_sweep_lem i m before t later some_level e =
        let k = count_fills-Counts (count_fill f (no_fills f) t) later in
        let first : (count_fills f (no_fills f) (t ∷ later)).levels ≡ t.price ∷ k.more =
          unfold count_fills count_fill seen_price in k.prefix in
        (
          k.more,
          first,
          detect_sweep-report_sweep i m before (t ∷ later) some_level e
              ∙ ap (λ l. report_sweep f i l (count_fills f (no_fills f) (t ∷ later)) m) first
              ∙ rw first refl,
        )

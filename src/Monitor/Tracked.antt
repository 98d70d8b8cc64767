-- ===== src/Monitor/Tracked.antt =====
-- What the parts of a call leave of a monitor (src/monitor/latency_monitor.py): the windows in
-- their bounds, and the order in hand timed.
use infotact_python_project.Prelude.{
  ℕ, suc, ◌+◌, ◌-◌, ◌≤◌, ◌≡◌, max, ◌&&◌, ltb, leb, ◌==◌, Option, none, some, List, [], ◌∷◌, ◌++◌,
  length, length-append, length-drop, All, All-append, refl, sym, subst, Bool-cases, inl, inr,
  arith,
}
use infotact_python_project.Float.{PriceOrder, FloatOps}
use infotact_python_project.Engine
use infotact_python_project.Engine.{Trade, add_order, buy}
use infotact_python_project.Engine.Steps.{
  buy_walk, sell_walk, add_order-after_buy, add_order-after_sell,
}
use infotact_python_project.TradeQueue.{Queue}
use infotact_python_project.TradeQueue.Events.{push_trade-sequence}
use infotact_python_project.Monitor.{
  Monitor, WhaleEvent, OrderInfo, Times, Handover, append_bounded, get_current_whale_threshold,
  add_event, inspect_order, Tally, engine_trade_count, order_event,
}
use infotact_python_project.Monitor.Orders.{report_sweep, detect_sweep, dispatch, push_to}

pub length-append_bounded {ℓ} :
    {A : Type ℓ} (n : ℕ) (xs : List A) (x : A) → length (append_bounded n xs x) ≤ n
unfolding append_bounded
length-append_bounded n xs x =
    omega (arith, length-drop (length xs + 1 - n) (xs ++ (x ∷ [])), length-append xs (x ∷ []))

-- The second queue is the first after `n` pushes of trades; there is none where there was none.
abbrev pub HandsOver {ℓ} : {P : Type ℓ} → ℕ → Option (Queue P) → Option (Queue P) → Type 0
HandsOver n none none = Unit
HandsOver n none (some q') = ⊥
HandsOver n (some q) none = ⊥
HandsOver n (some q) (some q') = q'.sequence ≡ q.sequence + n

-- The other threads push no dictionaries.
abbrev pub KeepsSequence {ℓ} : {P : Type ℓ} → (ℕ → Handover P) → Type ℓ
KeepsSequence {P} around = (i : ℕ) (q : Queue P) → ((around i).others q).sequence ≡ q.sequence

pub HandsOver-then {ℓ} :
    {P : Type ℓ} (n k : ℕ) (a b c : Option (Queue P))
    → HandsOver n a b
    → HandsOver k b c
    → HandsOver (n + k) a c
HandsOver-then n k none none none h g = tt
HandsOver-then n k none none (some c) h g = g
HandsOver-then n k none (some b) c h g = absurd h
HandsOver-then n k (some a) none c h g = absurd h
HandsOver-then n k (some a) (some b) none h g = g
HandsOver-then n k (some a) (some b) (some c) h g = omega arith

pub HandsOver-eq {ℓ} :
    {P : Type ℓ} (n k : ℕ) (a b : Option (Queue P)) → n ≡ k → HandsOver n a b → HandsOver k a b
HandsOver-eq n k none none e h = tt
HandsOver-eq n k none (some q') e h = h
HandsOver-eq n k (some q) none e h = h
HandsOver-eq n k (some q) (some q') e h = omega arith

pub HandsOver-none {ℓ} : {P : Type ℓ} (a : Option (Queue P)) → HandsOver 0 a a
HandsOver-none none = tt
HandsOver-none (some q) = omega arith

module _ {ℓ} {P : Type ℓ} ⦃o : PriceOrder P⦄ (f : FloatOps P) where
  pub push_to-HandsOver :
      (around : ℕ → Handover P) (i : ℕ) (t : Trade P) (queue : Option (Queue P))
      → KeepsSequence around
      → HandsOver 1 queue (push_to f (around i) t queue)
  unfolding push_to
  push_to-HandsOver around i t none keeps = tt
  push_to-HandsOver around i t (some q) keeps =
      push_trade-sequence f (around i).stamped_ns (around i).enqueued_ns (around i).others t q
        (keeps i)

module _ {ℓ} {P : Type ℓ} ⦃o : PriceOrder P⦄ where
  pub add_order_count :
      (order : Engine.Order P) (e : Engine.Engine P)
      → ((add_order order e).order_count ≡ e.order_count + 1)
        × (length e.trades ≤ length (add_order order e).trades)
  add_order_count order e = elim (Bool-cases (order.side == buy)) [
    | inl b ↦
        rw (add_order-after_buy order e b)
          (refl, omega (arith, length-append e.trades (buy_walk order e).trades))
    | inr s ↦
        rw (add_order-after_sell order e s)
          (refl, omega (arith, length-append e.trades (sell_walk order e).trades))
  ]

module _ {ℓ κ} {P : Type ℓ} {G : Type κ} where
  -- All but the trades still to be handed over.
  pub record IsTracked (m : Monitor P G) : Type 0 where
    pub timed : length m.all_latencies_ns ≡ m.engine.order_count
    pub positive : All (λ n. 1 ≤ n) m.all_latencies_ns
    pub rolling : length m.rolling_latencies_ns ≤ m.rolling_window
    pub quantities : length m.rolling_order_quantities ≤ 200
    pub events : length m.whale_events ≤ 50

  -- Each order that the engine has counted was timed, by a latency of at least 1; the windows
  -- keep to their bounds; and all trades on the tape were handed over.
  pub record IsValid (m : Monitor P G) : Type 0 where
    pub tracked : IsTracked m
    pub processed : m.last_processed_trade_idx ≡ length m.engine.trades

module _ {ℓ κ} {P : Type ℓ} {G : Type κ} ⦃o : PriceOrder P⦄ (f : FloatOps P) where
  -- The second monitor is the first with other whale events, within their bound.
  pub record Watched (m m' : Monitor P G) : Type (ℓ ⊔ κ) where
    pub events : List (WhaleEvent P)
    pub bounded : length m.whale_events ≤ 50 → length events ≤ 50
    pub same : m' ≡ record m { whale_events = events }

  Watched-refl : (m : Monitor P G) → Watched m m
  Watched-refl m = record { events = m.whale_events; bounded = λ h. h; same = refl }

  add_event-Watched : (event : WhaleEvent P) (m : Monitor P G) → Watched m (add_event f event m)
  unfolding add_event
  add_event-Watched event m = record {
    events = append_bounded 50 m.whale_events event;
    bounded = λ _. length-append_bounded 50 m.whale_events event;
    same = refl;
  }

  pub inspect_order-Watched : (i : OrderInfo P) (m : Monitor P G) → Watched m (inspect_order f i m)
  unfolding inspect_order
  inspect_order-Watched i m = elim (Bool-cases (leb (get_current_whale_threshold f m) i.quantity)) [
    | inl e ↦ rw e (add_event-Watched (order_event f i) m)
    | inr e ↦ rw e (Watched-refl m)
  ]

  report_sweep-Watched :
      (i : OrderInfo P) (levels : List P) (c : Tally P) (m : Monitor P G)
      → Watched m (report_sweep f i levels c m)
  unfolding report_sweep
  report_sweep-Watched i [] c m = Watched-refl m
  report_sweep-Watched i (first ∷ later) c m =
      elim (Bool-cases (
        leb m.sweep_min_levels (suc (length later))
        && leb (get_current_whale_threshold f m) c.executed)) [
          | inl e ↦ rw e (add_event-Watched _ m)
          | inr e ↦ rw e (Watched-refl m)
        ]

  pub detect_sweep-Watched :
      (i : OrderInfo P) (n_before : ℕ) (m : Monitor P G) → Watched m (detect_sweep f i n_before m)
  unfolding detect_sweep
  detect_sweep-Watched i n_before m = elim (Bool-cases (ltb m.sweep_min_levels 1)) [
    | inl e ↦ rw e (Watched-refl m)
    | inr e ↦ elim (Bool-cases (ltb (engine_trade_count f m - n_before) m.sweep_min_levels)) [
      | inl g ↦ rw (e, g) (Watched-refl m)
      | inr g ↦ rw (e, g) (report_sweep-Watched i _ _ m)
    ]
  ]

  pub Watched-IsTracked : (m m' : Monitor P G) → Watched m m' → IsTracked m → IsTracked m'
  Watched-IsTracked m m' w v = subst IsTracked (sym w.same) (record {
    timed = v.timed;
    positive = v.positive;
    rolling = v.rolling;
    quantities = v.quantities;
    events = w.bounded v.events;
  })

  pub dispatch-IsTracked :
      (i : OrderInfo P) (side : ℕ) (times : Times) (m : Monitor P G)
      → IsTracked m
      → IsTracked (dispatch f i side times m)
  unfolding dispatch
  dispatch-IsTracked i side times m v = record {
    timed = omega (
      arith,
      v.timed,
      length-append m.all_latencies_ns (max 1 (times.t1 - times.t0) ∷ []),
      (add_order_count
          (record {
            order_id = i.order_id;
            side = side;
            price = i.price;
            quantity = i.quantity;
            timestamp = i.timestamp_ns;
          })
          m.engine).0,
    );
    positive = All-append (λ n. 1 ≤ n) m.all_latencies_ns _ v.positive (omega arith, tt);
    rolling = length-append_bounded m.rolling_window m.rolling_latencies_ns _;
    quantities = v.quantities;
    events = v.events;
  }

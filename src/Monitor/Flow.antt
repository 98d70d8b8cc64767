-- ===== src/Monitor/Flow.antt =====
-- What stays true of a monitor (src/monitor/latency_monitor.py) over any calls: its windows keep
-- their bounds, each order is timed once, and each trade is handed over once.
use infotact_python_project.Prelude.{
  ℕ, suc, ◌+◌, ◌-◌, ◌≤◌, ◌≡◌, ltb, leb, some, List, [], ◌∷◌, length, drop, length-drop, length-take,
  refl, ap, sym, ◌∙◌, Bool-cases, inl, inr, arith,
}
use infotact_python_project.Float.{PriceOrder, FloatOps}
use infotact_python_project.Engine.{Trade}
use infotact_python_project.Monitor.{
  Monitor, OrderInfo, Times, Handover, append_bounded, get_current_whale_threshold,
  on_order_submitted, engine_trade_count,
}
use infotact_python_project.Monitor.Orders.{
  hand_over, hand_over_all, sync_matched_trades, new_trades, dispatch, submit,
}
use infotact_python_project.Monitor.Tracked.{
  HandsOver, KeepsSequence, HandsOver-then, HandsOver-none, HandsOver-eq, push_to-HandsOver,
  add_order_count, length-append_bounded, Watched, inspect_order-Watched, detect_sweep-Watched,
  IsTracked, IsValid, Watched-IsTracked, dispatch-IsTracked,
}

module _ {ℓ κ} {P : Type ℓ} {G : Type κ} ⦃o : PriceOrder P⦄ (f : FloatOps P) where
  -- What a submitted order leaves: the monitor tracked, the queue and the count of trades handed
  -- over as they were, and the tape no shorter.
  pub record Submitted (m m' : Monitor P G) : Type ℓ where
    pub tracked : IsTracked m → IsTracked m'
    pub index : m'.last_processed_trade_idx ≡ m.last_processed_trade_idx
    pub queue : m'.trade_queue ≡ m.trade_queue
    pub tape : length m.engine.trades ≤ length m'.engine.trades

  pub Submitted-then : (a b c : Monitor P G) → Submitted a b → Submitted b c → Submitted a c
  Submitted-then a b c h g = record {
    tracked = λ v. g.tracked (h.tracked v);
    index = g.index ∙ h.index;
    queue = g.queue ∙ h.queue;
    tape = omega (arith, h.tape, g.tape);
  }

  Watched-Submitted : (m m' : Monitor P G) → Watched f m m' → Submitted m m'
  Watched-Submitted m m' w = record {
    tracked = Watched-IsTracked f m m' w;
    index = ap (λ n. n.last_processed_trade_idx) w.same;
    queue = ap (λ n. n.trade_queue) w.same;
    tape = rw w.same (omega arith);
  }

  noted-Submitted :
      (i : OrderInfo P) (m : Monitor P G)
      → Submitted m (on_order_submitted f i (record m { last_order_info = some i }))
  unfolding on_order_submitted
  noted-Submitted i m =
      let noted = record m {
        last_order_info = some i;
        rolling_order_quantities = append_bounded 200 m.rolling_order_quantities i.quantity;
      } in
      Submitted-then m noted _
        (record {
          tracked = λ v. record {
            timed = v.timed;
            positive = v.positive;
            rolling = v.rolling;
            quantities = length-append_bounded 200 m.rolling_order_quantities i.quantity;
            events = v.events;
          };
          index = refl;
          queue = refl;
          tape = omega arith;
        })
        (Watched-Submitted noted _ (inspect_order-Watched f i noted))

  dispatch-Submitted :
      (i : OrderInfo P) (side : ℕ) (times : Times) (m : Monitor P G)
      → Submitted m (dispatch f i side times m)
  unfolding dispatch
  dispatch-Submitted i side times m = record {
    tracked = unfold dispatch in dispatch-IsTracked f i side times m;
    index = refl;
    queue = refl;
    tape = (add_order_count _ m.engine).1;
  }

  pub submit-Submitted :
      (i : OrderInfo P) (side : ℕ) (times : Times) (m : Monitor P G)
      → Submitted m (submit f i side times m)
  unfolding submit
  submit-Submitted i side times m =
      let noted = on_order_submitted f i (record m { last_order_info = some i }) in
      Submitted-then m noted _ (noted-Submitted i m) (
        Submitted-then noted (dispatch f i side times noted) _
          (dispatch-Submitted i side times noted)
          (Watched-Submitted _ _ (detect_sweep-Watched f i _ (dispatch f i side times noted))))

  -- What the loop over `n` trades leaves.
  record Handed (n : ℕ) (m m' : Monitor P G) : Type ℓ where
    pub tracked : IsTracked m → IsTracked m'
    engine : m'.engine ≡ m.engine
    queue : HandsOver n m.trade_queue m'.trade_queue

  hand_over-Handed :
      (thresh : ℕ) (around : ℕ → Handover P) (i : ℕ) (t : Trade P) (m : Monitor P G)
      → KeepsSequence around
      → Handed 1 m (hand_over f thresh (around i) t m)
  unfolding hand_over
  hand_over-Handed thresh around i t m keeps = record {
    tracked = λ v. record {
      timed = v.timed;
      positive = v.positive;
      rolling = v.rolling;
      quantities = v.quantities;
      events = elim (Bool-cases (leb thresh t.qty)) [
        | inl e ↦ rw e (length-append_bounded 50 m.whale_events _)
        | inr e ↦ rw e v.events
      ];
    };
    engine = refl;
    queue = push_to-HandsOver f around i t m.trade_queue keeps;
  }

  hand_over_all-Handed :
      (thresh : ℕ) (around : ℕ → Handover P) (i : ℕ) (trades : List (Trade P)) (m : Monitor P G)
      → KeepsSequence around
      → Handed (length trades) m (hand_over_all f thresh around i trades m)
  unfolding hand_over_all
  hand_over_all-Handed thresh around i [] m keeps = record {
    tracked = λ v. v;
    engine = refl;
    queue = HandsOver-none m.trade_queue;
  }
  hand_over_all-Handed thresh around i (t ∷ trades) m keeps =
      let one = hand_over-Handed thresh around i t m keeps in
      let more =
        hand_over_all-Handed thresh around (i + 1) trades (hand_over f thresh (around i) t m)
          keeps in
      record {
        tracked = λ v. more.tracked (one.tracked v);
        engine = more.engine ∙ one.engine;
        queue =
            HandsOver-eq (1 + length trades) (suc (length trades)) m.trade_queue _ (omega arith)
              (HandsOver-then 1 (length trades) m.trade_queue _ _ one.queue more.queue);
      }

  length-new_trades :
      (n : ℕ) (m : Monitor P G) → length (new_trades f n m) ≡ length m.engine.trades - n
  unfolding new_trades engine_trade_count
  length-new_trades n m = omega (
    arith,
    length-take (length m.engine.trades - n) (drop n m.engine.trades),
    length-drop n m.engine.trades,
  )

  pub sync_lem :
      (around : ℕ → Handover P) (m : Monitor P G)
      → KeepsSequence around
      → IsTracked m
      → m.last_processed_trade_idx ≤ length m.engine.trades
      → let m' = sync_matched_trades f around m in
        IsValid m'
        × (m'.engine ≡ m.engine)
        × HandsOver
            (length m.engine.trades - m.last_processed_trade_idx)
            m.trade_queue
            m'.trade_queue
  unfolding sync_matched_trades engine_trade_count
  sync_lem around m keeps v behind =
      elim (Bool-cases (ltb m.last_processed_trade_idx (length m.engine.trades))) [
        | inr none_new ↦ rw none_new (
          record { tracked = v; processed = ground arith },
          refl,
          HandsOver-eq 0 _ m.trade_queue m.trade_queue (ground arith)
              (HandsOver-none m.trade_queue),
        )
        | inl some_new ↦
            let h =
              hand_over_all-Handed (get_current_whale_threshold f m) around
                m.last_processed_trade_idx (new_trades f m.last_processed_trade_idx m) m keeps in
            let w = h.tracked v in
            rw some_new (
              record {
                tracked = record {
                  timed = w.timed;
                  positive = w.positive;
                  rolling = w.rolling;
                  quantities = w.quantities;
                  events = w.events;
                };
                processed = ap (λ e. length e.trades) (sym h.engine);
              },
              h.engine,
              HandsOver-eq _ _ m.trade_queue _ (length-new_trades m.last_processed_trade_idx m)
                  h.queue,
            )
      ]

-- ===== src/Monitor/Runs.antt =====
-- Any calls of a monitor (src/monitor/latency_monitor.py): `step`, `add_custom_order` and `reset`
-- in any order.
use infotact_python_project.Prelude.{
  ℕ, ◌+◌, ◌-◌, Bool, Option, none, some, List, [], ◌∷◌, length, All, refl, sym, arith,
}
use infotact_python_project.Float.{PriceOrder, FloatOps}
use infotact_python_project.Engine
use infotact_python_project.Engine.{buy, sell}
use infotact_python_project.TradeQueue.{Queue, clear}
use infotact_python_project.TradeQueue.Events.{clear-sequence}
use infotact_python_project.Simulator.{Random, next_order}
use infotact_python_project.Monitor.{Monitor, Times, Handover, Side, init, init_queue, side_value}
use infotact_python_project.Monitor.Orders.{
  sync_matched_trades, add_custom_order, step_order, step_orders, step, reset, custom_info,
  mock_info,
}
use infotact_python_project.Monitor.Tracked.{
  HandsOver, KeepsSequence, HandsOver-then, HandsOver-none, HandsOver-eq, IsValid,
}
use infotact_python_project.Monitor.Flow.{Submitted, Submitted-then, submit-Submitted, sync_lem}

-- A call, with the clock and the other threads.
pub data Call {ℓ} (P : Type ℓ) : Type ℓ where
  adds : ℕ → Side → P → ℕ → Option ℕ → Times → (ℕ → Handover P) → Call P
  steps : Times → List Times → (ℕ → Handover P) → Call P
  resets : Option ℕ → ℕ → Call P

-- The other threads push no dictionaries meanwhile.
abbrev pub Quiet {ℓ} : {P : Type ℓ} → Call P → Type ℓ
Quiet {P} (adds order_id side price quantity timestamp_ns times around) = KeepsSequence around
Quiet {P} (steps times later around) = KeepsSequence around
Quiet {P} (resets new_seed now_ns) = Unit

module _ {ℓ κ} {P : Type ℓ} {G : Type κ} ⦃o : PriceOrder P⦄ (f : FloatOps P) (r : Random P G) where
  unfoldable pub perform : Call P → Monitor P G → Monitor P G
  perform (adds order_id side price quantity timestamp_ns times around) m =
      (add_custom_order f order_id side price quantity timestamp_ns times around m).1
  perform (steps times later around) m = (step f r times later around m).1
  perform (resets new_seed now_ns) m = reset f r new_seed now_ns m

  unfoldable pub run : List (Call P) → Monitor P G → Monitor P G
  run [] m = m
  run (c ∷ calls) m = run calls (perform c m)

  -- The trades that a call adds to the tape; a reset starts a new tape.
  abbrev pub made : Call P → Monitor P G → ℕ
  made c m = length (perform c m).engine.trades - length m.engine.trades

  unfoldable pub made_all : List (Call P) → Monitor P G → ℕ
  made_all [] m = 0
  made_all (c ∷ calls) m = made c m + made_all calls (perform c m)

  step_order-Submitted : (times : Times) (m : Monitor P G) → Submitted f m (step_order f r times m)
  unfolding step_order
  step_order-Submitted times m =
      let drawn = next_order f r (f.div (f.float 4) (f.float 100)) m.simulator in
      let m1 = record m { simulator = drawn.1 } in
      Submitted-then f m m1 _
        (record {
          tracked = λ v. record {
            timed = v.timed;
            positive = v.positive;
            rolling = v.rolling;
            quantities = v.quantities;
            events = v.events;
          };
          index = refl;
          queue = refl;
          tape = omega arith;
        })
        (submit-Submitted f (mock_info f drawn.0 times) _ times m1)

  step_orders-Submitted :
      (times : List Times) (m : Monitor P G) → Submitted f m (step_orders f r times m).1
  unfolding step_orders
  step_orders-Submitted [] m = record {
    tracked = λ v. v;
    index = refl;
    queue = refl;
    tape = omega arith;
  }
  step_orders-Submitted (times ∷ later) m =
      Submitted-then f m (step_order f r times m) _ (step_order-Submitted times m)
        (step_orders-Submitted later (step_order f r times m))

  -- A call that submits orders and then hands over.
  synced :
      (around : ℕ → Handover P) (m m' : Monitor P G)
      → KeepsSequence around
      → IsValid m
      → Submitted f m m'
      → IsValid (sync_matched_trades f around m')
        × HandsOver
            (length (sync_matched_trades f around m').engine.trades - length m.engine.trades)
            m.trade_queue
            (sync_matched_trades f around m').trade_queue
  synced around m m' keeps v s =
      let (valid, same, queue) =
        sync_lem f around m' keeps (s.tracked v.tracked)
          (omega (arith, s.index, v.processed, s.tape)) in
      (
        valid,
        rw (same, sym s.queue)
            (HandsOver-eq _ _ m'.trade_queue _ (omega (arith, s.index, v.processed)) queue),
      )

  reset-IsValid :
      (new_seed : Option ℕ) (now_ns : ℕ) (m : Monitor P G) → IsValid (reset f r new_seed now_ns m)
  unfolding reset Engine.init
  reset-IsValid new_seed now_ns m = record {
    tracked = record {
      timed = refl;
      positive = tt;
      rolling = omega arith;
      quantities = omega arith;
      events = omega arith;
    };
    processed = refl;
  }

  reset-HandsOver :
      (new_seed : Option ℕ) (now_ns : ℕ) (m : Monitor P G)
      → HandsOver
          (length (reset f r new_seed now_ns m).engine.trades - length m.engine.trades)
          m.trade_queue
          (reset f r new_seed now_ns m).trade_queue
  unfolding reset Engine.init
  reset-HandsOver new_seed now_ns m = cleared m.trade_queue
    where
      cleared :
          (queue : Option (Queue P))
          → HandsOver
              (0 - length m.engine.trades)
              queue
              (elim queue [ none ↦ none | some q ↦ some (clear q) ])
      cleared none = tt
      cleared (some q) = omega (arith, clear-sequence q)

  perform_lem :
      (c : Call P) (m : Monitor P G)
      → Quiet c
      → IsValid m
      → IsValid (perform c m) × HandsOver (made c m) m.trade_queue (perform c m).trade_queue
  unfolding perform add_custom_order step
  perform_lem (adds order_id side price quantity timestamp_ns times around) m quiet v =
      synced around m _ quiet v (
        submit-Submitted f (custom_info f order_id side price quantity timestamp_ns times)
          (side_value side) times m)
  perform_lem (steps times later around) m quiet v =
      synced around m _ quiet v (step_orders-Submitted (times ∷ later) m)
  perform_lem (resets new_seed now_ns) m quiet v =
      (reset-IsValid new_seed now_ns m, reset-HandsOver new_seed now_ns m)

  run_lem :
      (calls : List (Call P)) (m : Monitor P G)
      → All Quiet calls
      → IsValid m
      → IsValid (run calls m) × HandsOver (made_all calls m) m.trade_queue (run calls m).trade_queue
  unfolding run made_all
  run_lem [] m quiet v = (v, HandsOver-none m.trade_queue)
  run_lem (c ∷ calls) m quiet v =
      let (valid, queue) = perform_lem c m quiet.0 v in
      let (valid', queue') = run_lem calls (perform c m) quiet.1 valid in
      (
        valid',
        HandsOver-then (made c m) (made_all calls (perform c m)) m.trade_queue _ _ queue queue',
      )

  -- From a new monitor, after any calls: every order that the engine has counted was timed, by a
  -- latency of at least 1; at most `rolling_window` latencies, 200 quantities and 50 events are
  -- kept; all trades on the tape were handed over; and the queue, if there is one, has taken one
  -- push for each trade that was ever made, given that the other threads push no trades of their
  -- own.
  pub run_tracks :
      (seed whale_threshold rolling_window queue_capacity sweep_min_levels now_ns : ℕ)
      (base_price : P) (is_relative enable_persistence : Bool) (calls : List (Call P))
      → All Quiet calls
      → let new =
          init f r seed base_price whale_threshold is_relative rolling_window enable_persistence
            queue_capacity sweep_min_levels now_ns in
        IsValid (run calls new)
        × HandsOver
            (made_all calls new)
            (init_queue f r enable_persistence queue_capacity)
            (run calls new).trade_queue
  unfolding init Engine.init
  run_tracks seed whale_threshold rolling_window queue_capacity sweep_min_levels now_ns base_price
        is_relative enable_persistence calls quiet =
      run_lem calls
        (init f r seed base_price whale_threshold is_relative rolling_window enable_persistence
          queue_capacity sweep_min_levels now_ns)
        quiet new-IsValid
    where
      new-IsValid : IsValid (
          init f r seed base_price whale_threshold is_relative rolling_window enable_persistence
            queue_capacity sweep_min_levels now_ns)
      new-IsValid = record {
        tracked = record {
          timed = refl;
          positive = tt;
          rolling = omega arith;
          quantities = omega arith;
          events = omega arith;
        };
        processed = refl;
      }

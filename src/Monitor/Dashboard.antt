-- ===== src/Monitor/Dashboard.antt =====
-- The loops around the monitor (src/monitor/latency_monitor.py): `CursesDashboard.run` with its
-- keys, and `run_headless_loop`. What is drawn is left out; the clock, the keys and the other
-- threads are given for each round.
pub mod Driven
use infotact_python_project.Prelude.{
  ℕ, zero, suc, ◌+◌, ◌-◌, min, max, Bool, true, false, not, ◌&&◌, ◌||◌, if◌then◌else◌, leb, ◌==◌,
  Option, none, some, List, [], ◌∷◌,
}
use infotact_python_project.Float.{PriceOrder, FloatOps}
use infotact_python_project.Simulator.{Random}
use infotact_python_project.Monitor.{Monitor, Times, Handover}
use infotact_python_project.Monitor.Orders.{step, reset}

pub record Dashboard {ℓ κ} (P : Type ℓ) (G : Type κ) : Type (ℓ ⊔ κ) where
  pub monitor : Monitor P G
  pub target_rate : ℕ
  pub is_paused : Bool
  pub show_help : Bool
  pub running : Bool

-- A round: whether the interval of a step is over, the key if there is one, and what surrounds
-- the step of the feed, and that of a key; a reset reads the clock.
pub record Round {ℓ} (P : Type ℓ) : Type ℓ where
  pub is_due : Bool
  pub key : Option ℕ
  pub times : Times
  pub around : ℕ → Handover P
  pub key_times : Times
  pub key_around : ℕ → Handover P
  pub reset_ns : ℕ

abbrev pub escape : ℕ
escape = 27

-- `max_orders is not None and orders_processed >= max_orders`
unfoldable pub reached : Option ℕ → ℕ → Bool
reached none orders_processed = false
reached (some max_orders) orders_processed = leb max_orders orders_processed

module _ {ℓ κ} {P : Type ℓ} {G : Type κ} where
  unfoldable pub new_dashboard : Monitor P G → ℕ → Dashboard P G
  new_dashboard monitor target_rate = record {
    monitor = monitor;
    target_rate = max 1 target_rate;
    is_paused = false;
    show_help = false;
    running = true;
  }

  -- The test on `get_order_count()`.
  unfoldable pub is_full : Option ℕ → Dashboard P G → Bool
  is_full none d = false
  is_full (some max_orders) d = leb max_orders d.monitor.engine.order_count

module _ {ℓ κ} {P : Type ℓ} {G : Type κ} ⦃o : PriceOrder P⦄ (f : FloatOps P) (r : Random P G) where
  -- `self.monitor.step(num_orders=1)`
  unfoldable pub one_step : Times → (ℕ → Handover P) → Dashboard P G → Dashboard P G
  one_step times around d = record d { monitor = (step f r times [] around d.monitor).1 }

  unfoldable pub press : Round P → ℕ → Dashboard P G → Dashboard P G
  press rd ch d =
      if ch == b'q' || (ch == b'Q' || ch == escape)
      then record d { running = false }
      else if ch == b'p' || (ch == b'P' || ch == b' ')
      then record d { is_paused = not d.is_paused }
      else if ch == b's' || ch == b'S'
      then one_step rd.key_times rd.key_around d
      else if ch == b'+' || ch == b'='
      then record d { target_rate = min 500 (d.target_rate + 5) }
      else if ch == b'-' || ch == b'_'
      then record d { target_rate = max 1 (d.target_rate - 5) }
      else if ch == b'r' || ch == b'R'
      then record d { monitor = reset f r none rd.reset_ns d.monitor }
      else if ch == b'h' || (ch == b'H' || ch == b'?')
      then record d { show_help = not d.show_help }
      else d

  unfoldable pub handle_key : Round P → Dashboard P G → Dashboard P G
  handle_key rd d = elim rd.key [ none ↦ d | some ch ↦ press rd ch d ]

  -- The feed's part of a round.
  unfoldable pub feed : Round P → Dashboard P G → Dashboard P G
  feed rd d = if not d.is_paused && rd.is_due then one_step rd.times rd.around d else d

  -- The `while`, over the rounds that are given.
  unfoldable pub run_dashboard : Option ℕ → List (Round P) → Dashboard P G → Dashboard P G
  run_dashboard max_orders [] d = d
  run_dashboard max_orders (rd ∷ rounds) d =
      let later = run_dashboard max_orders rounds (handle_key rd (feed rd d)) in
      if d.running then (if is_full max_orders (feed rd d) then feed rd d else later) else d

  -- `run_headless_loop`: the count of its orders, and the monitor. Without rounds it is
  -- interrupted.
  unfoldable pub headless_loop : Option ℕ → ℕ → List (Round P) → Monitor P G → ℕ × Monitor P G
  headless_loop max_orders orders_processed [] m = (orders_processed, m)
  headless_loop max_orders orders_processed (rd ∷ rounds) m =
      let m' = (step f r rd.times [] rd.around m).1 in
      elim (reached max_orders (orders_processed + 1)) [
        | true ↦ (orders_processed + 1, m')
        | false ↦ headless_loop max_orders (orders_processed + 1) rounds m'
      ]

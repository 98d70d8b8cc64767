-- ===== src/Monitor/Dashboard/Driven.antt =====
-- The dashboard (src/monitor/latency_monitor.py) changes its monitor by the monitor's own calls
-- only, and keeps its rate in bounds.
use infotact_python_project.Prelude.{
  ℕ, ◌≤◌, max, not, ◌&&◌, ◌||◌, ◌==◌, Option, none, some, List, [], ◌∷◌, ◌++◌, All, All-append, ◌≡◌,
  refl, ap, sym, ◌∙◌, Bool-cases, inl, inr, arith,
}
use infotact_python_project.Float.{PriceOrder, FloatOps}
use infotact_python_project.Simulator.{Random}
use infotact_python_project.Monitor.{Monitor, Times, Handover}
use infotact_python_project.Monitor.Orders.{reset}
use infotact_python_project.Monitor.Runs.{Call, steps, resets, adds, perform, run}
use infotact_python_project.Monitor.Dashboard.{
  Dashboard, Round, escape, new_dashboard, is_full, one_step, press, handle_key, feed,
  run_dashboard,
}

-- The calls that a dashboard makes: a step of one order, and a reset to the same seed.
abbrev pub IsOwn {ℓ} : {P : Type ℓ} → Call P → Type 0
IsOwn (steps times [] around) = Unit
IsOwn (steps times (next ∷ later) around) = ⊥
IsOwn (resets none now_ns) = Unit
IsOwn (resets (some seed) now_ns) = ⊥
IsOwn (adds order_id side price quantity timestamp_ns times around) = ⊥

module _ {ℓ κ} {P : Type ℓ} {G : Type κ} ⦃o : PriceOrder P⦄ (f : FloatOps P) (r : Random P G) where
  -- From one monitor to another by some of these calls.
  abbrev pub Driven : Monitor P G → Monitor P G → Type (ℓ ⊔ κ)
  Driven m m' = (calls : List (Call P)) × All IsOwn calls × (m' ≡ run f r calls m)

  run-append :
      (xs ys : List (Call P)) (m : Monitor P G) → run f r (xs ++ ys) m ≡ run f r ys (run f r xs m)
  unfolding run
  run-append [] ys m = refl
  run-append (x ∷ xs) ys m = run-append xs ys (perform f r x m)

  -- The next dashboard: driven from the last, with a rate in the bounds if the last had.
  record Goes (top : ℕ) (d d' : Dashboard P G) : Type (ℓ ⊔ κ) where
    calls : List (Call P)
    own : All IsOwn calls
    driven : d'.monitor ≡ run f r calls d.monitor
    rate :
        (1 ≤ d.target_rate) × (d.target_rate ≤ max 500 top)
        → (1 ≤ d'.target_rate) × (d'.target_rate ≤ max 500 top)

  Goes-then : (top : ℕ) (a b c : Dashboard P G) → Goes top a b → Goes top b c → Goes top a c
  Goes-then top a b c h g = record {
    calls = h.calls ++ g.calls;
    own = All-append IsOwn h.calls g.calls h.own g.own;
    driven = g.driven ∙ ap (run f r g.calls) h.driven ∙ sym (run-append h.calls g.calls a.monitor);
    rate = λ w. g.rate (h.rate w);
  }

  -- A change of the dashboard's own fields.
  stays :
      (top : ℕ) (d d' : Dashboard P G)
      → d'.monitor ≡ d.monitor
      → ((1 ≤ d.target_rate) × (d.target_rate ≤ max 500 top)
          → (1 ≤ d'.target_rate) × (d'.target_rate ≤ max 500 top))
      → Goes top d d'
  stays top d d' e w = record { calls = []; own = tt; driven = unfold run in e; rate = w }

  one_step-Goes :
      (top : ℕ) (times : Times) (around : ℕ → Handover P) (d : Dashboard P G)
      → Goes top d (one_step f r times around d)
  unfolding one_step run perform
  one_step-Goes top times around d = record {
    calls = steps times [] around ∷ [];
    own = (tt, tt);
    driven = refl;
    rate = λ w. w;
  }

  feed-Goes : (top : ℕ) (rd : Round P) (d : Dashboard P G) → Goes top d (feed f r rd d)
  unfolding feed
  feed-Goes top rd d = elim (Bool-cases (not d.is_paused && rd.is_due)) [
    | inl e ↦ rw e (one_step-Goes top rd.times rd.around d)
    | inr e ↦ rw e (stays top d d refl (λ w. w))
  ]

  reset-Goes :
      (top reset_ns : ℕ) (d : Dashboard P G)
      → Goes top d (record d { monitor = reset f r none reset_ns d.monitor })
  unfolding run perform
  reset-Goes top reset_ns d = record {
    calls = resets none reset_ns ∷ [];
    own = (tt, tt);
    driven = refl;
    rate = λ w. w;
  }

  press-Goes :
      (top : ℕ) (rd : Round P) (ch : ℕ) (d : Dashboard P G) → Goes top d (press f r rd ch d)
  unfolding press
  press-Goes top rd ch d = elim (Bool-cases (ch == b'q' || (ch == b'Q' || ch == escape))) [
    | inl e ↦ rw e (stays top d _ refl (λ w. w))
    | inr n1 ↦ elim (Bool-cases (ch == b'p' || (ch == b'P' || ch == b' '))) [
      | inl e ↦ rw (n1, e) (stays top d _ refl (λ w. w))
      | inr n2 ↦ elim (Bool-cases (ch == b's' || ch == b'S')) [
        | inl e ↦ rw (n1, n2, e) (one_step-Goes top rd.key_times rd.key_around d)
        | inr n3 ↦ elim (Bool-cases (ch == b'+' || ch == b'=')) [
          | inl e ↦ rw (n1, n2, n3, e) (stays top d _ refl (λ w. omega arith))
          | inr n4 ↦ elim (Bool-cases (ch == b'-' || ch == b'_')) [
            | inl e ↦ rw (n1, n2, n3, n4, e) (stays top d _ refl (λ w. omega arith))
            | inr n5 ↦ elim (Bool-cases (ch == b'r' || ch == b'R')) [
              | inl e ↦ rw (n1, n2, n3, n4, n5, e) (reset-Goes top rd.reset_ns d)
              | inr n6 ↦ elim (Bool-cases (ch == b'h' || (ch == b'H' || ch == b'?'))) [
                | inl e ↦ rw (n1, n2, n3, n4, n5, n6, e) (stays top d _ refl (λ w. w))
                | inr n7 ↦ rw (n1, n2, n3, n4, n5, n6, n7) (stays top d d refl (λ w. w))
              ]
            ]
          ]
        ]
      ]
    ]
  ]

  handle_key-Goes : (top : ℕ) (rd : Round P) (d : Dashboard P G) → Goes top d (handle_key f r rd d)
  unfolding handle_key
  handle_key-Goes top rd d = by_key rd.key
    where
      by_key : (key : Option ℕ) → Goes top d (elim key [ none ↦ d | some ch ↦ press f r rd ch d ])
      by_key none = stays top d d refl (λ w. w)
      by_key (some ch) = press-Goes top rd ch d

  run_dashboard-Goes :
      (top : ℕ) (max_orders : Option ℕ) (rounds : List (Round P)) (d : Dashboard P G)
      → Goes top d (run_dashboard f r max_orders rounds d)
  unfolding run_dashboard
  run_dashboard-Goes top max_orders [] d = stays top d d refl (λ w. w)
  run_dashboard-Goes top max_orders (rd ∷ rounds) d =
      let fed = feed f r rd d in
      let next = handle_key f r rd fed in
      let fed-Goes = feed-Goes top rd d in
      let all =
        Goes-then top d next (run_dashboard f r max_orders rounds next)
          (Goes-then top d fed next fed-Goes (handle_key-Goes top rd fed))
          (run_dashboard-Goes top max_orders rounds next) in
      elim (Bool-cases d.running) [
        | inr off ↦ simp off (stays top d d refl (λ w. w))
        | inl on ↦ elim (Bool-cases (is_full max_orders fed)) [
          | inl full ↦ simp (on, full) fed-Goes
          | inr more ↦ simp (on, more) all
        ]
      ]

  -- Whatever keys are pressed, the orders per second stay between 1 and 500, or the rate asked
  -- for at the start if that is more; and the monitor is as after some sequence of its own calls
  -- `step`, of one order, and `reset`, without a seed; no key adds an order of its own.
  pub dashboard_drives :
      (m : Monitor P G) (rate : ℕ) (max_orders : Option ℕ) (rounds : List (Round P))
      → let d = run_dashboard f r max_orders rounds (new_dashboard m rate) in
        (1 ≤ d.target_rate) × (d.target_rate ≤ max 500 rate) × Driven m d.monitor
  unfolding new_dashboard
  dashboard_drives m rate max_orders rounds =
      let g = run_dashboard-Goes rate max_orders rounds (new_dashboard m rate) in
      let (low, high) = g.rate (omega arith) in (low, high, (g.calls, g.own, g.driven))

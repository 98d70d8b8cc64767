-- ===== src/Simulator/Examples.antt =====
-- A run of the simulator on a counter in place of the random numbers, and the theorem on its
-- orders there.
use infotact_python_project.Prelude.{ℕ, length, All, ◌≡◌, pos}
use infotact_python_project.Float.Cents.{Cents, cents_format, cents_ops, cents_of, cents_rounds_up}
use infotact_python_project.Simulator.{Simulator, generate}
use infotact_python_project.Simulator.Orders.{Numbered, IsFair, generate_lem}
use infotact_python_project.Simulator.Counter.{counter}

abbrev start : Simulator Cents ℕ
start = record { seed = 7; base_price = cents_of 10000; rng = 7; next_id = 1 }

generate_lem_example :
    (length (generate ⦃o = cents_format.order⦄ cents_ops counter 3 (cents_of 1) start).0 ≡ 3)
    × Numbered 1 (generate ⦃o = cents_format.order⦄ cents_ops counter 3 (cents_of 1) start).0
    × ((generate ⦃o = cents_format.order⦄ cents_ops counter 3 (cents_of 1) start).1.next_id ≡ 4)
    × All
        (IsFair cents_format cents_ops counter (pos 5))
        (generate ⦃o = cents_format.order⦄ cents_ops counter 3 (cents_of 1) start).0
generate_lem_example =
    generate_lem cents_format cents_ops counter cents_rounds_up (pos 5) 3 (cents_of 1) start

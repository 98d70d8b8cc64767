-- ===== src/Simulator/Counter.antt =====
-- A generator that counts: it stays within the bounds that `random.randint` promises.
use native.Mathlib.Nat.{mod-lt}
use infotact_python_project.Prelude.{ℕ, suc, ◌+◌, ◌-◌, ◌%◌, ◌≤◌, ◌<◌, arith}
use infotact_python_project.Float.Cents.{Cents, cents_of}
use infotact_python_project.Simulator.{Random}

pub counter_bounds :
    (lo hi g : ℕ) → lo ≤ hi → (lo ≤ lo + g % suc (hi - lo)) × (lo + g % suc (hi - lo) ≤ hi)
counter_bounds lo hi g h =
    let below : g % suc (hi - lo) < suc (hi - lo) = mod-lt g (omega arith) in omega (arith, below)

-- A `gauss` and a `uniform` are 0 or 1.
abbrev pub counter_of {ℓ} : {P : Type ℓ} → (ℕ → P) → Random P ℕ
counter_of float = record {
  seeded = λ seed. seed;
  choice = λ n g. (g % n, g + 1);
  gauss = λ mu sigma g. (float (g % 2), g + 1);
  uniform = λ g. (float (g % 2), g + 1);
  randint = λ lo hi g. (lo + g % suc (hi - lo), g + 1);
  randint_bounds = counter_bounds;
}

abbrev pub counter : Random Cents ℕ
counter = counter_of cents_of

-- ===== src/Repository/Attempts.antt =====
-- The attempts of src/persistence/repository.py to write a batch: what they come to, and why one
-- may have written nothing.
use infotact_python_project.Prelude.{
  ℕ, zero, suc, ◌-◌, ◌<◌, false, List, [], ◌∷◌, ◌++◌, length, take, replicate, Result, ok, err, ◌≡◌,
  refl, ap, arith, Bool-cases, ◌⊎◌, inl, inr, length-append,
}
use infotact_python_project.Repository.{
  TradeRecord, Failure, Attempt, Database, insert_all, all_storable, transact, try_write, free,
  locked, broken, write_failed,
}
use infotact_python_project.Repository.Rows.{new_rows, trade_ids, insert_all-new_rows}

-- Among the first `n` attempts none finds the database free before one fails.
abbrev pub IsKeptOut : ℕ → List Attempt → Type 0
IsKeptOut n attempts =
    ((k : ℕ) × (k < n)
      × ((later : List Attempt) × (attempts ≡ replicate k locked ++ (broken ∷ later))))
    ⊎ (take n attempts ≡ replicate n locked)

IsKeptOut-locked :
    (n : ℕ) (attempts : List Attempt) → IsKeptOut n attempts → IsKeptOut (suc n) (locked ∷ attempts)
IsKeptOut-locked n attempts (inl (k, h, (later, e))) =
    inl (suc k, omega (arith, h), (later, ap (λ l. locked ∷ l) e))
IsKeptOut-locked n attempts (inr e) = inr (ap (λ l. locked ∷ l) e)

module _ {ℓ} {P : Type ℓ} where
  -- Either the new rows are in the table, or there is a reason why none is.
  abbrev pub Outcome :
      ℕ
      → List (TradeRecord P)
      → List (TradeRecord P)
      → List Attempt
      → Result Failure (ℕ × ℕ) × Database P
      → Type ℓ
  Outcome n rows table attempts r =
      let added = new_rows (trade_ids table) rows in
      ((r.0 ≡ ok (length added, length rows - length added))
        × (r.1.matched_trades ≡ table ++ added))
      ⊎ ((r.0 ≡ err write_failed)
          × (r.1.matched_trades ≡ table)
          × ((all_storable rows ≡ false) ⊎ IsKeptOut n attempts))

  transact-Outcome :
      (n : ℕ) (rows table : List (TradeRecord P)) (attempts later : List Attempt)
      → Outcome n rows table attempts (transact rows table later)
  unfolding transact
  transact-Outcome n rows table attempts later = elim (Bool-cases (all_storable rows)) [
    | inr e ↦ rw e (inr (refl, refl, inl refl))
    | inl e ↦ rw e (inl (ap (λ m. ok (m, length rows - m)) count, insert_all-new_rows rows table))
  ]
    where
      added : List (TradeRecord P)
      added = new_rows (trade_ids table) rows

      count : length (insert_all rows table) - length table ≡ length added
      count = omega (arith, ap length (insert_all-new_rows rows table), length-append table added)

  pub try_write-Outcome :
      (n : ℕ) (rows table : List (TradeRecord P)) (attempts : List Attempt)
      → Outcome n rows table attempts (try_write n rows table attempts)
  unfolding try_write
  try_write-Outcome zero rows table attempts = inr (refl, refl, inr (inr refl))
  try_write-Outcome (suc n) rows table [] = transact-Outcome (suc n) rows table [] []
  try_write-Outcome (suc n) rows table (free ∷ later) =
      transact-Outcome (suc n) rows table (free ∷ later) later
  try_write-Outcome (suc n) rows table (broken ∷ later) =
      inr (refl, refl, inr (inl (zero, omega arith, (later, refl))))
  try_write-Outcome (suc n) rows table (locked ∷ later) =
      elim (try_write-Outcome n rows table later) [
        | inl stored ↦ inl stored
        | inr (e, same, inl bad) ↦ inr (e, same, inl bad)
        | inr (e, same, inr out) ↦ inr (e, same, inr (IsKeptOut-locked n later out))
      ]

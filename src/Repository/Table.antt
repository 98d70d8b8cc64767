-- ===== src/Repository/Table.antt =====
-- The table of src/persistence/repository.py: it keeps one row for each trade id, a write that
-- returns has stored every row of its batch, and a write that raises has stored none.
use infotact_python_project.Prelude.{
  ℕ, zero, suc, ◌+◌, ◌-◌, List, [], ◌∷◌, length, Result, ok, err, ok-injective, ◌≡◌, refl, sym,
  subst, ap, ◌∙◌, arith, All, Bool-cases, inl, inr, max, ◌++◌, false, ◌⊎◌, append-nil,
}
use infotact_python_project.Repository.{
  TradeRecord, Failure, Repository, Attempt, Database, insert_all, all_storable, transact,
  try_write, save_trades_batch, free, locked, broken, write_failed,
}
use infotact_python_project.Repository.Attempts.{IsKeptOut, try_write-Outcome}
use infotact_python_project.Repository.Rows.{
  OnePerId, Has, insert_all-Has, insert_all-OnePerId, insert_all_again, insert_all-append,
  length-insert_all, new_rows, trade_ids,
}

module _ {ℓ} {P : Type ℓ} where
  -- What an attempt to write comes to.
  abbrev pub Written :
      List (TradeRecord P) → List (TradeRecord P) → Result Failure (ℕ × ℕ) × Database P → Type ℓ
  Written rows table r =
      ((i d : ℕ)
        → r.0 ≡ ok (i, d)
        → (r.1.matched_trades ≡ insert_all rows table)
          × (i ≡ length (insert_all rows table) - length table)
          × (i + d ≡ length rows))
      × ((e : Failure) → r.0 ≡ err e → r.1.matched_trades ≡ table)

  raised :
      (rows table : List (TradeRecord P)) (later : List Attempt)
      → Written rows table (err write_failed, record { matched_trades = table; attempts = later })
  raised rows table later = (λ i d h. cc, λ e h. refl)

  transact-Written :
      (rows table : List (TradeRecord P)) (later : List Attempt)
      → Written rows table (transact rows table later)
  unfolding transact
  transact-Written rows table later = elim (Bool-cases (all_storable rows)) [
    | inr e ↦ rw e (raised rows table later)
    | inl e ↦ rw e (
      λ i d h.
          let p = ok-injective _ (i, d) h in
          let (a, b) = length-insert_all rows table in
          (refl, sym (ap (λ q. q.0) p), omega (arith, ap (λ q. q.0) p, ap (λ q. q.1) p, a, b)),
      λ e h. cc,
    )
  ]

  try_write-Written :
      (n : ℕ) (rows table : List (TradeRecord P)) (attempts : List Attempt)
      → Written rows table (try_write n rows table attempts)
  unfolding try_write
  try_write-Written zero rows table attempts = raised rows table attempts
  try_write-Written (suc n) rows table [] = transact-Written rows table []
  try_write-Written (suc n) rows table (free ∷ later) = transact-Written rows table later
  try_write-Written (suc n) rows table (locked ∷ later) = try_write-Written n rows table later
  try_write-Written (suc n) rows table (broken ∷ later) = raised rows table later

  pub save_trades_batch-Written :
      (max_retries : ℕ) (rows : List (TradeRecord P)) (d : Database P)
      → Written rows d.matched_trades (save_trades_batch max_retries rows d)
  unfolding save_trades_batch insert_all
  save_trades_batch-Written max_retries [] d = (
    λ i n h.
        let p = ok-injective _ (i, n) h in
        (refl, omega (arith, ap (λ q. q.0) p), omega (arith, ap (λ q. q.0) p, ap (λ q. q.1) p)),
    λ e h. cc,
  )
  save_trades_batch-Written max_retries (r ∷ rows) d =
      try_write-Written (max 1 max_retries) (r ∷ rows) d.matched_trades d.attempts

  -- A write either returns, and then the rows of the batch whose trade id is not in the table yet,
  -- the first one of each, are appended in order, and it reports how many these are and the other
  -- rows as duplicates. Or it raises and leaves the table, and then a number of the batch does not
  -- fit into a column, or one of the attempts fails before any finds the database free, or all
  -- the attempts, of which there is at least one, find it locked.
  pub save_trades_batch_lem :
      (max_retries : ℕ) (rows : List (TradeRecord P)) (d : Database P)
      → let r = save_trades_batch max_retries rows d in
        let added = new_rows (trade_ids d.matched_trades) rows in
        ((r.0 ≡ ok (length added, length rows - length added))
          × (r.1.matched_trades ≡ d.matched_trades ++ added))
        ⊎ ((r.0 ≡ err write_failed)
            × (r.1.matched_trades ≡ d.matched_trades)
            × ((all_storable rows ≡ false) ⊎ IsKeptOut (max 1 max_retries) d.attempts))
  unfolding save_trades_batch new_rows
  save_trades_batch_lem max_retries [] d = inl (refl, sym (append-nil d.matched_trades))
  save_trades_batch_lem max_retries (r ∷ rows) d =
      try_write-Outcome (max 1 max_retries) (r ∷ rows) d.matched_trades d.attempts

  -- A table with one row for each trade id stays one, whatever is written and however it goes.
  -- After a write that returns, it has the trade id of every row of the batch, and a second write
  -- of the batch that returns inserts nothing and reports every row as a duplicate.
  pub save_trades_batch_twice :
      (max_retries : ℕ) (rows : List (TradeRecord P)) (d : Database P)
      → OnePerId d.matched_trades
      → let r = save_trades_batch max_retries rows d in
        let s = save_trades_batch max_retries rows r.1 in
        OnePerId r.1.matched_trades
        × ((p : ℕ × ℕ)
            → r.0 ≡ ok p
            → All (Has r.1.matched_trades) rows
              × ((i n : ℕ)
                  → s.0 ≡ ok (i, n)
                  → (i ≡ 0) × (n ≡ length rows) × (s.1.matched_trades ≡ r.1.matched_trades)))
  save_trades_batch_twice max_retries rows d h = (
    unique (save_trades_batch max_retries rows d) (save_trades_batch-Written max_retries rows d),
    λ p e.
        let r = save_trades_batch max_retries rows d in
        let (same, count, sum) = (save_trades_batch-Written max_retries rows d).0 p.0 p.1 e in
        let all = subst (λ t. All (Has t) rows) (sym same) (insert_all-Has rows d.matched_trades) in
        (
          all,
          λ i n k.
              let (same', count', sum') =
                (save_trades_batch-Written max_retries rows r.1).0 i n k in
              let again = insert_all_again rows r.1.matched_trades all in
              (
                omega (arith, count', ap length again),
                omega (arith, count', sum', ap length again),
                same' ∙ again,
              ),
        ),
  )
    where
      unique :
          (r : Result Failure (ℕ × ℕ) × Database P)
          → Written rows d.matched_trades r
          → OnePerId r.1.matched_trades
      unique (ok (i, n), e) (good, bad) =
          subst OnePerId (sym (good i n refl).0) (insert_all-OnePerId rows d.matched_trades h)
      unique (err e, d') (good, bad) = subst OnePerId (sym (bad e refl)) h

  pub insert_all_nil : (table : List (TradeRecord P)) → insert_all [] table ≡ table
  unfolding insert_all
  insert_all_nil table = refl

  -- The database is a repository as the worker expects it: its ledger is the table.
  abbrev pub sqlite_repository : ℕ → Repository (TradeRecord P) (Database P) (List (TradeRecord P))
  sqlite_repository max_retries = record {
    save_trades_batch = save_trades_batch max_retries;
    ledger = λ d. d.matched_trades;
    enter = insert_all;
    enter_nil = insert_all_nil;
    enter_append = insert_all-append;
    saved = λ rows d i n h.
        let (a, b, c) = (save_trades_batch-Written max_retries rows d).0 i n h in (a, c);
    rolled_back = λ rows d e h. (save_trades_batch-Written max_retries rows d).1 e h;
  }

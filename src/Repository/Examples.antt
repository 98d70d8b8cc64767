-- ===== src/Repository/Examples.antt =====
-- Writes to the table of trades, and its theorems at concrete inputs.
use infotact_python_project.Prelude.{
  ◌⊎◌, ◌++◌, false, ℕ, ◌+◌, ◌-◌, List, [], ◌∷◌, length, ok, err, ◌≡◌, refl, All,
}
use infotact_python_project.Bytes.{bytes_eq}
use infotact_python_project.Repository.{
  TradeRecord, write_failed, Database, locked, insert_all, save_trades_batch, try_write, transact,
  all_storable, storable, insert_or_ignore, has_id,
}
use infotact_python_project.Repository.Attempts.{IsKeptOut}
use infotact_python_project.Repository.Rows.{OnePerId, Has, new_rows, trade_ids, is_seen}
use infotact_python_project.Repository.Table.{save_trades_batch_lem, save_trades_batch_twice}

abbrev row : ℕ → TradeRecord ℕ
row n = record {
  trade_id = n ∷ [];
  buy_order_id = n;
  sell_order_id = n + 100;
  price = 10050;
  quantity = 5;
  notional = 50250;
  timestamp_ns = n;
  symbol = [];
}

-- One row is there; the first attempt finds the database locked.
abbrev database : Database ℕ
database = record { matched_trades = row 1 ∷ []; attempts = locked ∷ [] }

abbrev batch : List (TradeRecord ℕ)
batch = row 1 ∷ row 2 ∷ row 2 ∷ row 3 ∷ []

batch-written :
    save_trades_batch 3 batch database
    ≡ (ok (2, 2), record { matched_trades = row 1 ∷ row 2 ∷ row 3 ∷ []; attempts = [] })
unfolding save_trades_batch try_write transact all_storable storable insert_all insert_or_ignore
    has_id bytes_eq
batch-written = refl

new_in_batch : new_rows (trade_ids database.matched_trades) batch ≡ row 2 ∷ row 3 ∷ []
unfolding new_rows is_seen bytes_eq
new_in_batch = refl

save_trades_batch_lem_example :
    let r = save_trades_batch 3 batch database in
    let added = new_rows (trade_ids database.matched_trades) batch in
    ((r.0 ≡ ok (length added, 4 - length added))
      × (r.1.matched_trades ≡ database.matched_trades ++ added))
    ⊎ ((r.0 ≡ err write_failed)
        × (r.1.matched_trades ≡ database.matched_trades)
        × ((all_storable batch ≡ false) ⊎ IsKeptOut 3 (locked ∷ [])))
save_trades_batch_lem_example = save_trades_batch_lem 3 batch database

save_trades_batch_twice_example :
    let r = save_trades_batch 3 batch database in
    let s = save_trades_batch 3 batch r.1 in
    OnePerId r.1.matched_trades
    × ((p : ℕ × ℕ)
        → r.0 ≡ ok p
        → All (Has r.1.matched_trades) batch
          × ((i n : ℕ)
              → s.0 ≡ ok (i, n)
              → (i ≡ 0) × (n ≡ length batch) × (s.1.matched_trades ≡ r.1.matched_trades)))
unfolding has_id bytes_eq
save_trades_batch_twice_example = save_trades_batch_twice 3 batch database (refl, tt)

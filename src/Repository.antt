-- ===== src/Repository.antt =====
-- src/persistence/repository.py: the trade records, what a repository promises, and the one that
-- keeps them in a table of SQLite, with `INSERT OR IGNORE` on the key `trade_id`. A state of the
-- database is the table between two transactions, with what happens to the next attempts to write
-- to it.
pub mod Rows
pub mod Attempts
pub mod Table
pub mod Totals
mod Examples
use infotact_python_project.Prelude.{
  ℕ, zero, suc, ◌+◌, ◌-◌, ◌^◌, max, Bool, true, false, not, ◌&&◌, ◌||◌, if◌then◌else◌, ltb, List,
  [], ◌∷◌, ◌++◌, length, map, take, drop, Result, ok, err, ◌≡◌,
}
use infotact_python_project.Bytes.{bytes_eq}
use infotact_python_project.Float.{PriceFormat, is_positive}
use infotact_python_project.Processor.{Text}

-- The two times of writing are left out.
pub record TradeRecord {ℓ} (P : Type ℓ) : Type ℓ where
  pub trade_id : Text
  pub buy_order_id : ℕ
  pub sell_order_id : ℕ
  pub price : P
  pub quantity : ℕ
  pub notional : P
  pub timestamp_ns : ℕ
  pub symbol : Text

-- What a repository raises.
pub data Failure : Type 0 where
  write_failed : Failure

-- `BaseTradeRepository`, as far as the worker uses it, and what it promises: what is stored is the
-- ledger, a batch whose writing returns is entered into it, and a write that raises leaves it.
pub record Repository {ℓ κ μ} (R : Type ℓ) (S : Type κ) (L : Type μ) : Type (ℓ ⊔ κ ⊔ μ) where
  pub save_trades_batch : List R → S → Result Failure (ℕ × ℕ) × S
  pub ledger : S → L
  pub enter : List R → L → L
  pub enter_nil : (l : L) → enter [] l ≡ l
  pub enter_append : (a b : List R) (l : L) → enter (a ++ b) l ≡ enter b (enter a l)
  pub saved :
      (rows : List R) (s : S) (inserted duplicates : ℕ)
      → (save_trades_batch rows s).0 ≡ ok (inserted, duplicates)
      → (ledger (save_trades_batch rows s).1 ≡ enter rows (ledger s))
        × (inserted + duplicates ≡ length rows)
  pub rolled_back :
      (rows : List R) (s : S) (e : Failure)
      → (save_trades_batch rows s).0 ≡ err e
      → ledger (save_trades_batch rows s).1 ≡ ledger s

-- `TradeRecord.__post_init__`; `rounded_product` is `round(price * quantity, 4)`.
unfoldable pub post_init {ℓ} :
    {P : Type ℓ} → PriceFormat P → (P → ℕ → P) → TradeRecord P → TradeRecord P
post_init f rounded_product r =
    if not (is_positive f r.notional) && (is_positive f r.price && ltb 0 r.quantity)
    then record r { notional = rounded_product r.price r.quantity }
    else r

-- How an attempt at a transaction goes: the database is free, or locked or busy, or fails
-- otherwise.
pub data Attempt : Type 0 where
  free locked broken : Attempt

-- The table in the order of its rows; past the end of `attempts` the database is free.
pub record Database {ℓ} (P : Type ℓ) : Type ℓ where
  pub matched_trades : List (TradeRecord P)
  pub attempts : List Attempt

module _ {ℓ} {P : Type ℓ} where
  unfoldable pub has_id : Text → List (TradeRecord P) → Bool
  has_id trade_id [] = false
  has_id trade_id (r ∷ rows) = bytes_eq r.trade_id trade_id || has_id trade_id rows

  -- `INSERT OR IGNORE`
  unfoldable pub insert_or_ignore : TradeRecord P → List (TradeRecord P) → List (TradeRecord P)
  insert_or_ignore r rows = if has_id r.trade_id rows then rows else rows ++ (r ∷ [])

  -- `executemany`
  unfoldable pub insert_all : List (TradeRecord P) → List (TradeRecord P) → List (TradeRecord P)
  insert_all [] table = table
  insert_all (r ∷ rows) table = insert_all rows (insert_or_ignore r table)

  -- An `INTEGER` of SQLite has 64 bits and a sign; a larger number raises `OverflowError`.
  unfoldable pub storable : TradeRecord P → Bool
  storable r =
      ltb r.buy_order_id (2 ^ 63)
      && (ltb r.sell_order_id (2 ^ 63) && (ltb r.quantity (2 ^ 63) && ltb r.timestamp_ns (2 ^ 63)))

  unfoldable pub all_storable : List (TradeRecord P) → Bool
  all_storable [] = true
  all_storable (r ∷ rows) = storable r && all_storable rows

  -- The transaction of an attempt that finds the database free.
  unfoldable pub transact :
      List (TradeRecord P)
      → List (TradeRecord P)
      → List Attempt
      → Result Failure (ℕ × ℕ) × Database P
  transact rows table later =
      if all_storable rows
      then (
        ok (
          length (insert_all rows table) - length table,
          length rows - (length (insert_all rows table) - length table),
        ),
        record { matched_trades = insert_all rows table; attempts = later },
      )
      else (err write_failed, record { matched_trades = table; attempts = later })

  -- The `for` over the attempts; after the last one the last error is raised.
  unfoldable pub try_write :
      ℕ
      → List (TradeRecord P)
      → List (TradeRecord P)
      → List Attempt
      → Result Failure (ℕ × ℕ) × Database P
  try_write zero rows table attempts =
      (err write_failed, record { matched_trades = table; attempts = attempts })
  try_write (suc n) rows table [] = transact rows table []
  try_write (suc n) rows table (free ∷ later) = transact rows table later
  try_write (suc n) rows table (locked ∷ later) = try_write n rows table later
  try_write (suc n) rows table (broken ∷ later) =
      (err write_failed, record { matched_trades = table; attempts = later })

  -- `max_retries` is what the constructor was given.
  unfoldable pub save_trades_batch :
      ℕ → List (TradeRecord P) → Database P → Result Failure (ℕ × ℕ) × Database P
  save_trades_batch max_retries [] d = (ok (0, 0), d)
  save_trades_batch max_retries (r ∷ rows) d =
      try_write (max 1 max_retries) (r ∷ rows) d.matched_trades d.attempts

  pub get_trade_count : Database P → ℕ
  get_trade_count d = length d.matched_trades

-- `ORDER BY rowid ASC LIMIT ? OFFSET ?`; the rows become records again.
pub get_trades {ℓ} :
    {P : Type ℓ} → PriceFormat P → (P → ℕ → P) → ℕ → ℕ → Database P → List (TradeRecord P)
get_trades f rounded_product limit offset d =
    map (post_init f rounded_product) (take limit (drop offset d.matched_trades))

-- The last ones of `ORDER BY rowid DESC LIMIT ?`, turned round.
pub get_latest_trades {ℓ} :
    {P : Type ℓ} → PriceFormat P → (P → ℕ → P) → ℕ → Database P → List (TradeRecord P)
get_latest_trades f rounded_product limit d =
    map (post_init f rounded_product) (drop (length d.matched_trades - limit) d.matched_trades)

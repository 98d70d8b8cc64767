-- ===== src/Worker/Shutdown.antt =====
-- The shutdown of src/persistence/worker.py: the held batch and the queue are written or counted as
-- abandoned, in order.
use infotact_python_project.Prelude.{
  ℕ, zero, suc, Bool, true, false, some, List, [], ◌++◌, ◌≡◌, refl, sym, ap, ◌∙◌, append-nil, subst,
  arith,
}
use infotact_python_project.Float.{PriceFormat}
use infotact_python_project.TradeQueue.{TradeEvent}
use infotact_python_project.Repository.{TradeRecord, Repository}
use infotact_python_project.Worker.{
  Worker, persist_batch, count_retry, next_try, unless_done, write_with_retries, abandon,
  settle_batch, flush_batch,
}
use infotact_python_project.Worker.Persist.{
  held, Moves, Moves-then, at_rest, count_retry-Moves, Outcome, persist_batch-Outcome,
}

module _ {ℓ κ μ} {P : Type ℓ} {S : Type κ} {L : Type μ} (f : PriceFormat P)
    (rounded_product : P → ℕ → P) (clock : ℕ → ℕ) (repo : Repository (TradeRecord P) S L) where
  -- An attempt that failed is followed by other attempts.
  Outcome-then :
      (batch : List (TradeEvent P)) (w v : Worker P S) (r : Bool × Worker P S)
      → Moves f rounded_product clock repo w v [] []
      → v.trade_queue ≡ w.trade_queue
      → v.batch_size ≡ w.batch_size
      → Outcome f rounded_product clock repo batch v r
      → Outcome f rounded_product clock repo batch w r
  Outcome-then batch w v r m q z o = record {
    written = o.written;
    moves = Moves-then f rounded_product clock repo w v r.1 [] o.written [] [] m o.moves;
    same_queue = o.same_queue ∙ q;
    same_size = o.same_size ∙ z;
    done = o.done;
    undone = o.undone;
  }

  -- What one attempt guarantees, and what an attempt that failed leaves.
  abbrev Attempt : List (TradeEvent P) → Worker P S → Bool × Worker P S → Type (ℓ ⊔ μ)
  Attempt batch w r =
      Outcome f rounded_product clock repo batch w r
      × (r.0 ≡ false → r.1.pending_batch ≡ some batch)

  first_attempt :
      (again : Bool) (batch : List (TradeEvent P)) (w : Worker P S)
      → (batch ≡ [] → held w.pending_batch ≡ [])
      → Attempt batch w (
          persist_batch f rounded_product clock repo batch
            (next_try f rounded_product clock repo again w))
  unfolding count_retry next_try
  first_attempt false batch w h = persist_batch-Outcome f rounded_product clock repo batch w h
  first_attempt true batch w h =
      let v = count_retry f rounded_product clock repo w in
      let (o, kept) = persist_batch-Outcome f rounded_product clock repo batch v h in
      (
        Outcome-then batch w v _ (count_retry-Moves f rounded_product clock repo w) refl refl o,
        kept,
      )

  unless_done-Outcome :
      (batch : List (TradeEvent P)) (w : Worker P S) (r : Bool × Worker P S)
      (later : Worker P S → Bool × Worker P S)
      → Attempt batch w r
      → ((v : Worker P S)
          → (batch ≡ [] → held v.pending_batch ≡ [])
          → Outcome f rounded_product clock repo batch v (later v))
      → Outcome f rounded_product clock repo batch w
          (unless_done f rounded_product clock repo r later)
  unfolding unless_done
  unless_done-Outcome batch w (true, v) later (o, kept) more = o
  unless_done-Outcome batch w (false, v) later (o, kept) more =
      Outcome-then batch w v _
        (subst (λ xs. Moves f rounded_product clock repo w v xs []) (o.undone refl) o.moves)
        o.same_queue o.same_size (more v (λ k. ap held (kept refl) ∙ k))

  retries-Outcome :
      (attempts : ℕ) (again : Bool) (batch : List (TradeEvent P)) (w : Worker P S)
      → (batch ≡ [] → held w.pending_batch ≡ [])
      → Outcome f rounded_product clock repo batch w
          (write_with_retries f rounded_product clock repo attempts again batch w)
  unfolding write_with_retries
  retries-Outcome zero again batch w h = record {
    written = [];
    moves = at_rest f rounded_product clock repo w;
    same_queue = refl;
    same_size = refl;
    done = λ e. cc;
    undone = λ e. refl;
  }
  retries-Outcome (suc attempts) again batch w h =
      unless_done-Outcome batch w _ _ (first_attempt again batch w h)
        (λ v k. retries-Outcome attempts true batch v k)

  -- From `p` to `r`, each with its `gave_up`: the trades `batch` are written up to some point, and
  -- abandoned from there on.
  pub record Settles (batch : List (TradeEvent P)) (p r : Bool × Worker P S) : Type (ℓ ⊔ μ) where
    pub written : List (TradeEvent P)
    pub given_up : List (TradeEvent P)
    pub moves : Moves f rounded_product clock repo p.1 r.1 written given_up
    pub order : written ++ given_up ≡ batch
    pub after : p.0 ≡ true → (written ≡ []) × (r.0 ≡ true)
    pub until : r.0 ≡ false → given_up ≡ []
    pub same_queue : r.1.trade_queue ≡ p.1.trade_queue
    pub same_size : r.1.batch_size ≡ p.1.batch_size
    pub none_held : held r.1.pending_batch ≡ []

  settle_batch-Settles :
      (batch : List (TradeEvent P)) (w : Worker P S) (r : Bool × Worker P S)
      → Outcome f rounded_product clock repo batch w r
      → Settles batch (false, w) (settle_batch f rounded_product clock repo batch r)
  unfolding settle_batch abandon
  settle_batch-Settles batch w (true, v) o = record {
    written = o.written;
    given_up = [];
    moves = o.moves;
    order = append-nil o.written ∙ (o.done refl).0;
    after = λ e. cc;
    until = λ e. refl;
    same_queue = o.same_queue;
    same_size = o.same_size;
    none_held = (o.done refl).1;
  }
  settle_batch-Settles batch w (false, v) o = record {
    written = [];
    given_up = batch;
    moves =
        let m =
          subst (λ xs. Moves f rounded_product clock repo w v xs []) (o.undone refl) o.moves in
        record {
          ledger = m.ledger;
          received = m.received;
          sorted_out = m.sorted_out;
          abandoned = omega (arith, m.abandoned);
        };
    order = refl;
    after = λ e. cc;
    until = λ e. cc;
    same_queue = o.same_queue;
    same_size = o.same_size;
    none_held = refl;
  }

  pub flush_batch-Settles :
      (batch : List (TradeEvent P)) (p : Bool × Worker P S)
      → (batch ≡ [] → held p.1.pending_batch ≡ [])
      → Settles batch p (flush_batch f rounded_product clock repo batch p)
  unfolding flush_batch abandon
  flush_batch-Settles batch (true, w) h = record {
    written = [];
    given_up = batch;
    moves = record {
      ledger = sym (repo.enter_nil (repo.ledger w.repository));
      received = omega arith;
      sorted_out = omega arith;
      abandoned = refl;
    };
    order = refl;
    after = λ e. (refl, refl);
    until = λ e. cc;
    same_queue = refl;
    same_size = refl;
    none_held = refl;
  }
  flush_batch-Settles batch (false, w) h =
      settle_batch-Settles batch w _ (retries-Outcome w.shutdown_retry_attempts false batch w h)

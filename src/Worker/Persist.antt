-- ===== src/Worker/Persist.antt =====
-- One attempt to write a batch in src/persistence/worker.py, and what it does to the books.
use infotact_python_project.Prelude.{
  ℕ, ◌+◌, Bool, true, false, Option, none, some, List, [], ◌∷◌, ◌++◌, length, map, Result, ok, err,
  ◌≡◌, refl, sym, ap, ◌∙◌, arith, length-append, length-map, map-append,
}
use infotact_python_project.Float.{PriceFormat}
use infotact_python_project.TradeQueue.{TradeEvent}
use infotact_python_project.Repository.{TradeRecord, Repository, Failure}
use infotact_python_project.Worker.{Worker, to_record, finish_batch, persist_batch, count_retry}

-- The trades that wait for a retry.
abbrev pub held {ℓ} : {P : Type ℓ} → Option (List (TradeEvent P)) → List (TradeEvent P)
held none = []
held (some batch) = batch

module _ {ℓ κ μ} {P : Type ℓ} {S : Type κ} {L : Type μ} (f : PriceFormat P)
    (rounded_product : P → ℕ → P) (clock : ℕ → ℕ) (repo : Repository (TradeRecord P) S L) where
  -- From `w` to `w'` the trades `written` went into the ledger, in order, and as many as `given_up`
  -- were abandoned; the metrics say so.
  pub record Moves (w w' : Worker P S) (written given_up : List (TradeEvent P)) : Type μ where
    pub ledger :
        repo.ledger w'.repository
        ≡ repo.enter
            (map (to_record f rounded_product clock repo) written)
            (repo.ledger w.repository)
    pub received : w'.metrics.trades_received ≡ w.metrics.trades_received + length written
    pub sorted_out :
        w'.metrics.trades_persisted + w'.metrics.duplicate_count
        ≡ w.metrics.trades_persisted + w.metrics.duplicate_count + length written
    pub abandoned : w'.metrics.trades_abandoned ≡ w.metrics.trades_abandoned + length given_up

  pub Moves-then :
      (u v w : Worker P S) (a b c d : List (TradeEvent P))
      → Moves u v a c
      → Moves v w b d
      → Moves u w (a ++ b) (c ++ d)
  Moves-then u v w a b c d m n = record {
    ledger =
        n.ledger
        ∙ ap (repo.enter (map (to_record f rounded_product clock repo) b)) m.ledger
        ∙ sym (repo.enter_append (map (to_record f rounded_product clock repo) a) _ _)
        ∙ ap (λ r. repo.enter r (repo.ledger u.repository))
            (sym (map-append (to_record f rounded_product clock repo) a b));
    received = omega (arith, m.received, n.received, length-append a b);
    sorted_out = omega (arith, m.sorted_out, n.sorted_out, length-append a b);
    abandoned = omega (arith, m.abandoned, n.abandoned, length-append c d);
  }

  pub at_rest : (w : Worker P S) → Moves w w [] []
  at_rest w = record {
    ledger = sym (repo.enter_nil (repo.ledger w.repository));
    received = omega arith;
    sorted_out = omega arith;
    abandoned = omega arith;
  }

  pub count_retry-Moves :
      (w : Worker P S) → Moves w (count_retry f rounded_product clock repo w) [] []
  unfolding count_retry
  count_retry-Moves w = record {
    ledger = sym (repo.enter_nil (repo.ledger w.repository));
    received = omega arith;
    sorted_out = omega arith;
    abandoned = omega arith;
  }

  -- How an attempt, or a number of them, comes out: all of the batch or nothing.
  pub record Outcome (batch : List (TradeEvent P)) (w : Worker P S) (r : Bool × Worker P S)
      : Type (ℓ ⊔ μ) where
    pub written : List (TradeEvent P)
    pub moves : Moves w r.1 written []
    pub same_queue : r.1.trade_queue ≡ w.trade_queue
    pub same_size : r.1.batch_size ≡ w.batch_size
    pub done : r.0 ≡ true → (written ≡ batch) × (held r.1.pending_batch ≡ [])
    pub undone : r.0 ≡ false → written ≡ []

  finish_batch-Outcome :
      (batch : List (TradeEvent P)) (r : Result Failure (ℕ × ℕ) × S) (w : Worker P S)
      → ((i d : ℕ)
          → r.0 ≡ ok (i, d)
          → (repo.ledger r.1
              ≡ repo.enter
                  (map (to_record f rounded_product clock repo) batch)
                  (repo.ledger w.repository))
            × (i + d ≡ length batch))
      → ((e : Failure) → r.0 ≡ err e → repo.ledger r.1 ≡ repo.ledger w.repository)
      → Outcome batch w (finish_batch f rounded_product clock repo batch r w)
        × ((finish_batch f rounded_product clock repo batch r w).0 ≡ false
            → (finish_batch f rounded_product clock repo batch r w).1.pending_batch ≡ some batch)
  unfolding finish_batch
  finish_batch-Outcome batch (ok (i, d), s) w good bad = (
    record {
      written = batch;
      moves = record {
        ledger = (good i d refl).0;
        received = refl;
        sorted_out = omega (arith, (good i d refl).1);
        abandoned = omega arith;
      };
      same_queue = refl;
      same_size = refl;
      done = λ h. (refl, refl);
      undone = λ h. cc;
    },
    λ h. cc,
  )
  finish_batch-Outcome batch (err e, s) w good bad = (
    record {
      written = [];
      moves = record {
        ledger = bad e refl ∙ sym (repo.enter_nil (repo.ledger w.repository));
        received = omega arith;
        sorted_out = omega arith;
        abandoned = omega arith;
      };
      same_queue = refl;
      same_size = refl;
      done = λ h. cc;
      undone = λ h. refl;
    },
    λ h. refl,
  )

  -- An attempt writes the whole batch, or nothing and keeps the batch.
  pub persist_batch-Outcome :
      (batch : List (TradeEvent P)) (w : Worker P S)
      → (batch ≡ [] → held w.pending_batch ≡ [])
      → Outcome batch w (persist_batch f rounded_product clock repo batch w)
        × ((persist_batch f rounded_product clock repo batch w).0 ≡ false
            → (persist_batch f rounded_product clock repo batch w).1.pending_batch ≡ some batch)
  unfolding persist_batch
  persist_batch-Outcome [] w none_held = (
    record {
      written = [];
      moves = at_rest w;
      same_queue = refl;
      same_size = refl;
      done = λ h. (refl, none_held refl);
      undone = λ h. refl;
    },
    λ h. cc,
  )
  persist_batch-Outcome (event ∷ rest) w none_held =
      finish_batch-Outcome (event ∷ rest)
        (repo.save_trades_batch (map (to_record f rounded_product clock repo) (event ∷ rest))
          w.repository)
        w
        (λ i d h.
          let (l, n) = repo.saved _ w.repository i d h in
          (l, n ∙ length-map (to_record f rounded_product clock repo) (event ∷ rest)))
        (λ e h. repo.rolled_back _ w.repository e h)

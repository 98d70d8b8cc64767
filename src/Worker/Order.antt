-- ===== src/Worker/Order.antt =====
-- The loop of src/persistence/worker.py: trades reach the ledger in the order in which they were
-- taken off the queue, and none is skipped.
use infotact_python_project.Prelude.{
  ℕ, Bool, true, false, ◌&&◌, if◌then◌else◌, Option, none, some, List, [], ◌∷◌, ◌++◌, ◌≡◌, refl,
  sym, ap, ◌∙◌, append-nil, append_assoc, Bool-cases, inl, inr,
}
use infotact_python_project.Float.{PriceFormat}
use infotact_python_project.TradeQueue.{TradeEvent, Queue}
use infotact_python_project.Repository.{TradeRecord, Repository}
use infotact_python_project.Worker.{
  Worker, Round, persist_batch, count_retry, back_off, take_queue, popped, others_act, round_of,
  holds, run_rounds,
}
use infotact_python_project.Worker.Persist.{
  held, Moves, Moves-then, at_rest, count_retry-Moves, persist_batch-Outcome,
}

module _ {ℓ κ μ} {P : Type ℓ} {S : Type κ} {L : Type μ} (f : PriceFormat P)
    (rounded_product : P → ℕ → P) (clock : ℕ → ℕ) (repo : Repository (TradeRecord P) S L) where
  -- What a round takes off the queue.
  abbrev pub picked :
      Option (List (TradeEvent P)) → (Queue P → Queue P) → Worker P S → List (TradeEvent P)
  picked (some batch) waiting w = []
  picked none waiting w = (popped f rounded_product clock repo true waiting w).0

  -- What the rounds take off the queue, one after another.
  unfoldable pub taken : List (Round P) → Worker P S → List (TradeEvent P)
  taken [] w = []
  taken (r ∷ rounds) w =
      if holds f rounded_product clock repo w.pending_batch && r.interrupted
      then []
      else picked w.pending_batch r.waiting (others_act f rounded_product clock repo r.before w)
        ++ taken rounds (
            round_of f rounded_product clock repo w.pending_batch r.waiting
              (others_act f rounded_product clock repo r.before w))

  -- From `w` to `w'` what was held and `came` is written in order, up to what is held then.
  pub record InOrder (w w' : Worker P S) (before came : List (TradeEvent P)) : Type (ℓ ⊔ μ) where
    pub written : List (TradeEvent P)
    pub moves : Moves f rounded_product clock repo w w' written []
    pub order : written ++ held w'.pending_batch ≡ before ++ came
    pub same_size : w'.batch_size ≡ w.batch_size

  back_off-InOrder :
      (w : Worker P S) (r : Bool × Worker P S) (xs ys : List (TradeEvent P))
      → InOrder w r.1 xs ys
      → InOrder w (back_off f rounded_product clock repo r) xs ys
  unfolding back_off
  back_off-InOrder w (true, v) xs ys h = h
  back_off-InOrder w (false, v) xs ys h = record {
    written = h.written;
    moves = record {
      ledger = h.moves.ledger;
      received = h.moves.received;
      sorted_out = h.moves.sorted_out;
      abandoned = h.moves.abandoned;
    };
    order = h.order;
    same_size = h.same_size;
  }

  -- One attempt, in those terms.
  attempt :
      (batch : List (TradeEvent P)) (w : Worker P S)
      → (batch ≡ [] → held w.pending_batch ≡ [])
      → InOrder w (persist_batch f rounded_product clock repo batch w).1 batch []
  attempt batch w h =
      let (o, kept) = persist_batch-Outcome f rounded_product clock repo batch w h in
      elim (Bool-cases (persist_batch f rounded_product clock repo batch w).0) [
        | inl e ↦ record {
          written = o.written;
          moves = o.moves;
          order = ap (λ p. o.written ++ p) (o.done e).1 ∙ ap (λ p. p ++ []) (o.done e).0;
          same_size = o.same_size;
        }
        | inr e ↦ record {
          written = o.written;
          moves = o.moves;
          order =
              ap
                (λ p.
                  p ++ held (persist_batch f rounded_product clock repo batch w).1.pending_batch)
                (o.undone e)
              ∙ ap held (kept e)
              ∙ sym (append-nil batch);
          same_size = o.same_size;
        }
      ]

  round_of-InOrder :
      (p : Option (List (TradeEvent P))) (waiting : Queue P → Queue P) (w : Worker P S)
      → w.pending_batch ≡ p
      → InOrder w (round_of f rounded_product clock repo p waiting w) (held p) (picked p waiting w)
  unfolding round_of count_retry take_queue
  round_of-InOrder (some batch) waiting w e =
      let h = attempt batch (count_retry f rounded_product clock repo w) (λ k. ap held e ∙ k) in
      back_off-InOrder w _ batch [] (record {
        written = h.written;
        moves =
            Moves-then f rounded_product clock repo w _ _ [] h.written [] []
              (count_retry-Moves f rounded_product clock repo w) h.moves;
        order = h.order;
        same_size = h.same_size;
      })
  round_of-InOrder none waiting w e =
      let r = popped f rounded_product clock repo true waiting w in
      let h = attempt r.0 (take_queue f rounded_product clock repo r w) (λ k. ap held e) in
      record {
        written = h.written;
        moves = record {
          ledger = h.moves.ledger;
          received = h.moves.received;
          sorted_out = h.moves.sorted_out;
          abandoned = h.moves.abandoned;
        };
        order = h.order ∙ append-nil r.0;
        same_size = h.same_size;
      }

  -- The other threads leave the books alone.
  others-InOrder :
      (others : Queue P → Queue P) (w w' : Worker P S) (xs ys : List (TradeEvent P))
      → InOrder (others_act f rounded_product clock repo others w) w' xs ys
      → InOrder w w' xs ys
  unfolding others_act
  others-InOrder others w w' xs ys h = record {
    written = h.written;
    moves = record {
      ledger = h.moves.ledger;
      received = h.moves.received;
      sorted_out = h.moves.sorted_out;
      abandoned = h.moves.abandoned;
    };
    order = h.order;
    same_size = h.same_size;
  }

  InOrder-then :
      (u v w : Worker P S) (xs as_came bs_came : List (TradeEvent P))
      → InOrder u v xs as_came
      → InOrder v w (held v.pending_batch) bs_came
      → InOrder u w xs (as_came ++ bs_came)
  InOrder-then u v w xs as_came bs_came m n = record {
    written = m.written ++ n.written;
    moves = Moves-then f rounded_product clock repo u v w m.written n.written [] [] m.moves n.moves;
    order =
        append_assoc m.written n.written (held w.pending_batch)
        ∙ ap (λ p. m.written ++ p) n.order
        ∙ sym (append_assoc m.written (held v.pending_batch) bs_came)
        ∙ ap (λ p. p ++ bs_came) m.order
        ∙ append_assoc xs as_came bs_came;
    same_size = n.same_size ∙ m.same_size;
  }

  -- Over the rounds of the loop, whatever the other threads do and the repository answers: what was
  -- held, followed by what the rounds took off the queue, is what went into the ledger, followed by
  -- what is held then. The metrics count what was written, and nothing is abandoned.
  pub run_rounds-InOrder :
      (rounds : List (Round P)) (w : Worker P S)
      → InOrder w
          (run_rounds f rounded_product clock repo rounds w)
          (held w.pending_batch)
          (taken rounds w)
  unfolding run_rounds taken others_act
  run_rounds-InOrder [] w = record {
    written = [];
    moves = at_rest f rounded_product clock repo w;
    order = sym (append-nil (held w.pending_batch));
    same_size = refl;
  }
  run_rounds-InOrder (r ∷ rounds) w =
      elim (Bool-cases (holds f rounded_product clock repo w.pending_batch && r.interrupted)) [
        | inl e ↦ simp e (
            others-InOrder r.before w _ (held w.pending_batch) [] (record {
              written = [];
              moves = at_rest f rounded_product clock repo _;
              order = sym (append-nil (held w.pending_batch));
              same_size = refl;
            }))
        | inr e ↦ simp e (
            InOrder-then w _ _ (held w.pending_batch) _ _
              (others-InOrder r.before w _ (held w.pending_batch) _ (
                round_of-InOrder w.pending_batch r.waiting
                  (others_act f rounded_product clock repo r.before w) refl))
              (run_rounds-InOrder rounds _))
      ]

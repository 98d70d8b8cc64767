-- ===== src/Worker/Flushed.antt =====
-- The `while` of `_drain_remaining` in src/persistence/worker.py: the batches that are left are
-- written up to some point and abandoned from there on.
use infotact_python_project.Prelude.{
  ℕ, zero, suc, ◌+◌, ◌<◌, Bool, true, false, ltb, Option, none, some, List, [], ◌∷◌, ◌++◌, length,
  take, drop, ◌≡◌, refl, sym, ap, ap₂, ◌∙◌, append-nil, append_assoc, subst, arith,
  take-append-drop, length-append,
}
use infotact_python_project.Float.{PriceFormat}
use infotact_python_project.TradeQueue.{TradeEvent, Queue}
use infotact_python_project.TradeQueue.Pops.{pop_batch_lem, taken}
use infotact_python_project.Repository.{TradeRecord, Repository}
use infotact_python_project.Worker.{
  Worker, take_queue, popped, flush_batch, flush_held, flush_next, flush_queue,
}
use infotact_python_project.Worker.Persist.{held, Moves, Moves-then, at_rest}
use infotact_python_project.Worker.Shutdown.{Settles, flush_batch-Settles}

pub ltb-add : (a n : ℕ) → ltb a (a + n) ≡ ltb 0 n
ltb-add a n = ground arith

module _ {ℓ κ μ} {P : Type ℓ} {S : Type κ} {L : Type μ} (f : PriceFormat P)
    (rounded_product : P → ℕ → P) (clock : ℕ → ℕ) (repo : Repository (TradeRecord P) S L) where
  -- From `p`, with its `gave_up`, to `w`: the trades `waiting` are written up to some point and
  -- abandoned from there on, and none is left.
  pub record Flushed (waiting : List (TradeEvent P)) (p : Bool × Worker P S) (w : Worker P S)
      : Type (ℓ ⊔ μ) where
    pub written : List (TradeEvent P)
    pub given_up : List (TradeEvent P)
    pub moves : Moves f rounded_product clock repo p.1 w written given_up
    pub order : written ++ given_up ≡ waiting
    pub after : p.0 ≡ true → written ≡ []
    pub empty : w.trade_queue.queue ≡ []
    pub none_held : held w.pending_batch ≡ []

  nothing_left : (n : ℕ) (xs : List (TradeEvent P)) → 0 < n → take n xs ≡ [] → drop n xs ≡ []
  nothing_left zero xs h e = absurd (omega arith)
  nothing_left (suc n) [] h e = refl
  nothing_left (suc n) (x ∷ xs) h e = cc

  -- What was given up before stays before what is written later: there is none of one of them.
  in_order :
      (gave_up : Bool) (a b c d : List (TradeEvent P))
      → (gave_up ≡ false → b ≡ [])
      → (gave_up ≡ true → c ≡ [])
      → (a ++ c) ++ (b ++ d) ≡ (a ++ b) ++ (c ++ d)
  in_order false a b c d h k = rw (h refl, append-nil a) (append_assoc a c d)
  in_order true a b c d h k = rw (k refl, append-nil a) (sym (append_assoc a b d))

  pub Settles-then :
      (xs ys : List (TradeEvent P)) (p q : Bool × Worker P S) (w : Worker P S)
      → Settles f rounded_product clock repo xs p q
      → Flushed ys q w
      → Flushed (xs ++ ys) p w
  Settles-then xs ys p q w s h = record {
    written = s.written ++ h.written;
    given_up = s.given_up ++ h.given_up;
    moves =
        Moves-then f rounded_product clock repo p.1 q.1 w s.written h.written s.given_up h.given_up
          s.moves h.moves;
    order =
        in_order q.0 s.written s.given_up h.written h.given_up s.until h.after
        ∙ ap₂ ◌++◌ s.order h.order;
    after = λ e. ap₂ ◌++◌ (s.after e).0 (h.after (s.after e).1);
    empty = h.empty;
    none_held = h.none_held;
  }

  flush_next-Flushed :
      (r : List (TradeEvent P) × Queue P) (p : Bool × Worker P S)
      (later : Bool × Worker P S → Worker P S)
      → held p.1.pending_batch ≡ []
      → (r.0 ≡ [] → r.1.queue ≡ [])
      → ((q : Bool × Worker P S)
          → held q.1.pending_batch ≡ []
          → q.1.batch_size ≡ p.1.batch_size
          → q.1.trade_queue ≡ r.1
          → 0 < length r.0
          → Flushed r.1.queue q (later q))
      → Flushed (r.0 ++ r.1.queue) p (flush_next f rounded_product clock repo r p later)
  unfolding flush_next take_queue
  flush_next-Flushed ([], q) (g, w) later none_held last more = record {
    written = [];
    given_up = [];
    moves = record {
      ledger = sym (repo.enter_nil (repo.ledger w.repository));
      received = omega arith;
      sorted_out = omega arith;
      abandoned = omega arith;
    };
    order = sym (last refl);
    after = λ e. refl;
    empty = last refl;
    none_held = none_held;
  }
  flush_next-Flushed (event ∷ rest, q) (g, w) later none_held last more =
      let v = take_queue f rounded_product clock repo (event ∷ rest, q) w in
      let s =
        flush_batch-Settles f rounded_product clock repo (event ∷ rest) (g, v) (λ e. none_held) in
      let h =
        more (flush_batch f rounded_product clock repo (event ∷ rest) (g, v)) s.none_held
          s.same_size s.same_queue (omega arith) in
      let t = Settles-then (event ∷ rest) q.queue (g, v) _ _ s h in
      record {
        written = t.written;
        given_up = t.given_up;
        moves = record {
          ledger = t.moves.ledger;
          received = t.moves.received;
          sorted_out = t.moves.sorted_out;
          abandoned = t.moves.abandoned;
        };
        order = t.order;
        after = t.after;
        empty = t.empty;
        none_held = t.none_held;
      }

  pub flush_queue-Flushed :
      (n : ℕ) (p : Bool × Worker P S)
      → held p.1.pending_batch ≡ []
      → 0 < p.1.batch_size
      → length p.1.trade_queue.queue < n
      → Flushed p.1.trade_queue.queue p (flush_queue f rounded_product clock repo n p)
  unfolding flush_queue popped
  flush_queue-Flushed zero p none_held size fuel = absurd (omega arith)
  flush_queue-Flushed (suc n) (g, w) none_held size fuel =
      subst (λ xs. Flushed xs (g, w) (flush_queue f rounded_product clock repo (suc n) (g, w)))
        whole
        (flush_next-Flushed r (g, w) _ none_held last
          (λ q held_none same_size same_queue some_taken.
            subst (λ xs. Flushed xs q (flush_queue f rounded_product clock repo n q))
              (ap (λ t. t.queue) same_queue)
              (flush_queue-Flushed n q held_none (omega (arith, same_size)) (
                omega (
                  arith,
                  ap (λ t. length t.queue) same_queue,
                  length-append r.0 r.1.queue,
                  ap length whole,
                  some_taken,
                )))))
    where
      r : List (TradeEvent P) × Queue P
      r = popped f rounded_product clock repo false (λ q. q) w

      lem : r ≡ (
        take w.batch_size w.trade_queue.queue,
        taken (clock w.readings) w.batch_size w.trade_queue,
      )
      lem = pop_batch_lem (clock w.readings) w.batch_size w.trade_queue

      whole : r.0 ++ r.1.queue ≡ w.trade_queue.queue
      whole = ap (λ t. t.0 ++ t.1.queue) lem ∙ take-append-drop w.batch_size w.trade_queue.queue

      last : r.0 ≡ [] → r.1.queue ≡ []
      last e =
          ap (λ t. t.1.queue) lem
          ∙ nothing_left w.batch_size w.trade_queue.queue size (sym (ap (λ t. t.0) lem) ∙ e)

  pub flush_held-Settles :
      (p : Option (List (TradeEvent P))) (w : Worker P S)
      → (p ≡ w.pending_batch)
      → Settles f rounded_product clock repo
          (held p)
          (false, w)
          (flush_held f rounded_product clock repo p w)
  unfolding flush_held
  flush_held-Settles none w e = record {
    written = [];
    given_up = [];
    moves = at_rest f rounded_product clock repo w;
    order = refl;
    after = λ h. cc;
    until = λ h. refl;
    same_queue = refl;
    same_size = refl;
    none_held = sym (ap held e);
  }
  flush_held-Settles (some batch) w e =
      flush_batch-Settles f rounded_product clock repo batch (false, w) (λ h. sym (ap held e) ∙ h)

-- ===== src/TradeQueue/Events.antt =====
-- `TradeEvent.from_engine_dict`, `push` of a trade dictionary and `stats`
-- (src/ipc/trade_queue.py). The trades are those of the engine, whose dictionaries have the keys
-- `buy_id`, `sell_id`, `price` and `qty` only. A clock reading is an argument.
use infotact_python_project.Prelude.{
  ℕ, zero, suc, ◌+◌, ◌-◌, ◌*◌, ◌/◌, ◌%◌, ◌<◌, Bool, if◌then◌else◌, ltb, ◌==◌, List, [], ◌∷◌, ◌++◌,
  length, ◌≡◌, ◌≢◌, refl, ap, sym, ◌∙◌, Result, Bool-cases, inl, inr, arith,
}
use infotact_python_project.Float.{FloatOps}
use infotact_python_project.Processor.{Text}
use infotact_python_project.Engine.{Trade}
use infotact_python_project.TradeQueue.{
  Queue, TradeEvent, Error, BackpressurePolicy, drop_oldest, drop_newest, block, raise, push, clear,
  make_room, finish_push, apply_policy, count_drop, append_event, blocked, wait_not_full, must_wait,
}

-- `str` of a number, by its digits; one round for each, so the number and one more is fuel enough.
unfoldable pub digits : ℕ → ℕ → Text
digits zero n = []
digits (suc fuel) n =
    let rest = digits fuel (n / 10) in
    if ltb n 10 then (48 + n) ∷ [] else rest ++ ((48 + n % 10) ∷ [])

unfoldable pub decimal : ℕ → Text
decimal n = digits (suc n) n

-- `f"TRD_{buy_id}_{sell_id}_{ts}_{sequence}"`
unfoldable pub trade_id_of : ℕ → ℕ → ℕ → ℕ → Text
trade_id_of buy_id sell_id ts sequence =
    b'T'
    ∷ b'R'
    ∷ b'D'
    ∷ b'_'
    ∷ (decimal buy_id
        ++ (b'_' ∷ (decimal sell_id ++ (b'_' ∷ (decimal ts ++ (b'_' ∷ decimal sequence))))))

abbrev pub default_symbol : Text
default_symbol = b'D' ∷ b'E' ∷ b'F' ∷ b'A' ∷ b'U' ∷ b'L' ∷ b'T' ∷ []

-- The dictionary of `stats`.
pub record QueueStats {ℓ} (P : Type ℓ) : Type ℓ where
  pub size : ℕ
  pub capacity : ℕ
  pub utilization_pct : P
  pub total_pushed : ℕ
  pub total_popped : ℕ
  pub dropped_count : ℕ
  pub high_watermark : ℕ
  pub avg_queue_delay_us : P
  pub is_closed : Bool

module _ {ℓ} {P : Type ℓ} (f : FloatOps P) where
  unfoldable pub from_engine_dict : ℕ → ℕ → Trade P → ℕ → TradeEvent P
  from_engine_dict now_ns enqueued_ns t sequence = record {
    trade_id = trade_id_of t.buy_id t.sell_id now_ns sequence;
    buy_order_id = t.buy_id;
    sell_order_id = t.sell_id;
    price = t.price;
    quantity = t.qty;
    notional = f.mul t.price (f.float t.qty);
    timestamp_ns = now_ns;
    enqueue_time_ns = enqueued_ns;
    symbol = default_symbol;
  }

  -- `push` of a dictionary. The lock is released between the count and the push of the event:
  -- `others` is what the other threads do there, `waits` what they do at each wait of the push.
  unfoldable pub push_trade :
      ℕ
      → ℕ
      → (Queue P → Queue P)
      → List (Queue P → Queue P)
      → Trade P
      → Queue P
      → Result Error Bool × Queue P
  push_trade now_ns enqueued_ns others waits t q =
      push waits (from_engine_dict now_ns enqueued_ns t (q.sequence + 1))
        (others (record q { sequence = q.sequence + 1 }))

  unfoldable pub stats : Queue P → QueueStats P
  stats q = record {
    size = length q.queue;
    capacity = q.capacity;
    utilization_pct = f.mul (f.div (f.float (length q.queue)) (f.float q.capacity)) (f.float 100);
    total_pushed = q.total_pushed;
    total_popped = q.total_popped;
    dropped_count = q.dropped_count;
    high_watermark = q.high_watermark;
    avg_queue_delay_us =
        if ltb 0 q.total_popped
        then f.div (f.div (f.float q.total_queue_delay_ns) (f.float q.total_popped)) (f.float 1000)
        else f.float 0;
    is_closed = q.closed;
  }

module _ {ℓ} {P : Type ℓ} where
  apply_policy-sequence :
      (policy : BackpressurePolicy) (event : TradeEvent P) (q : Queue P)
      → (finish_push event (apply_policy policy [] q)).1.sequence ≡ q.sequence
  unfolding apply_policy finish_push count_drop append_event blocked wait_not_full must_wait
  apply_policy-sequence drop_oldest event q = refl
  apply_policy-sequence drop_newest event q = refl
  apply_policy-sequence raise event q = refl
  apply_policy-sequence block event q = ground arith

  push-sequence : (event : TradeEvent P) (q : Queue P) → (push [] event q).1.sequence ≡ q.sequence
  unfolding push make_room finish_push append_event
  push-sequence event q = ground (arith, apply_policy-sequence q.backpressure event q)

  -- A push of a trade takes the next sequence number.
  pub push_trade-sequence :
      (f : FloatOps P) (now_ns enqueued_ns : ℕ) (others : Queue P → Queue P) (t : Trade P)
      (q : Queue P)
      → ((r : Queue P) → (others r).sequence ≡ r.sequence)
      → (push_trade f now_ns enqueued_ns others [] t q).1.sequence ≡ q.sequence + 1
  unfolding push_trade
  push_trade-sequence f now_ns enqueued_ns others t q keeps =
      push-sequence _ _ ∙ keeps (record q { sequence = q.sequence + 1 })

  pub clear-sequence : (q : Queue P) → (clear q).sequence ≡ q.sequence
  unfolding clear
  clear-sequence q = refl

-- The number that the text ends in: each underscore starts anew.
abbrev read_digit : ℕ → ℕ → ℕ
read_digit acc c = if c == b'_' then 0 else acc * 10 + (c - 48)

abbrev last_number : ℕ → Text → ℕ
last_number acc [] = acc
last_number acc (c ∷ cs) = last_number (read_digit acc c) cs

last_number-append :
    (acc : ℕ) (xs ys : Text) → last_number acc (xs ++ ys) ≡ last_number (last_number acc xs) ys
last_number-append acc [] ys = refl
last_number-append acc (x ∷ xs) ys = last_number-append (read_digit acc x) xs ys

last_number-digits : (fuel n : ℕ) → n < fuel → last_number 0 (digits fuel n) ≡ n
unfolding digits
last_number-digits zero n h = absurd (omega arith)
last_number-digits (suc fuel) n h = elim (Bool-cases (ltb n 10)) [
  | inl small ↦ rw small (ground arith)
  | inr big ↦
      rw
        (
          big,
          last_number-append 0 (digits fuel (n / 10)) ((48 + n % 10) ∷ []),
          last_number-digits fuel (n / 10) (ground arith),
        )
        (ground arith)
]

last_number-part : (acc : ℕ) (xs ys : Text) → last_number acc (xs ++ (b'_' ∷ ys)) ≡ last_number 0 ys
last_number-part acc xs ys = last_number-append acc xs (b'_' ∷ ys)

last_number-trade_id_of :
    (buy_id sell_id ts sequence : ℕ)
    → last_number 0 (trade_id_of buy_id sell_id ts sequence) ≡ sequence
unfolding trade_id_of decimal
last_number-trade_id_of buy_id sell_id ts sequence =
    last_number-part 0 (decimal buy_id) _
    ∙ last_number-part 0 (decimal sell_id) _
    ∙ last_number-part 0 (decimal ts) _
    ∙ last_number-digits (suc sequence) sequence (omega arith)

-- Events of different sequence numbers have different keys, also if they are of one trade.
pub trade_id_unique {ℓ} :
    {P : Type ℓ} (f : FloatOps P) (t t' : Trade P) (now now' at at' sequence sequence' : ℕ)
    → sequence ≢ sequence'
    → (from_engine_dict f now at t sequence).trade_id
      ≢ (from_engine_dict f now' at' t' sequence').trade_id
unfolding from_engine_dict
trade_id_unique f t t' now now' at at' sequence sequence' differ same = differ (
    sym (last_number-trade_id_of t.buy_id t.sell_id now sequence)
    ∙ ap (last_number 0) same
    ∙ last_number-trade_id_of t'.buy_id t'.sell_id now' sequence')

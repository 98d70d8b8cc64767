-- ===== src/TradeQueue.antt =====
-- src/ipc/trade_queue.py: `TradeEventQueue`, the bounded queue between the engine and its
-- consumers. The lock makes the body of a call one step. Where a call waits, it releases the
-- lock: what the other threads do to the queue meanwhile is an argument, a function for each time
-- that it waits. A callback is its identity, a number; a clock reading is an argument.
pub mod Pops
pub mod Invariant
pub mod Waiting
pub mod Calls
pub mod Pushes
pub mod Flow
pub mod Events
mod Examples
use infotact_python_project.Prelude.{
  ℕ, zero, suc, ◌+◌, ◌-◌, min, max, Bool, true, false, not, ◌&&◌, if◌then◌else◌, ltb, leb, ◌==◌,
  Option, none, some, List, [], ◌∷◌, ◌++◌, length, map, drop, Result, ok, err,
}
use infotact_python_project.Processor.{Text}

pub data BackpressurePolicy : Type 0 where
  drop_oldest drop_newest block raise : BackpressurePolicy

pub data Error : Type 0 where
  queue_full_error : Error

-- The metadata dictionary is left out: nothing reads it.
pub record TradeEvent {ℓ} (P : Type ℓ) : Type ℓ where
  pub trade_id : Text
  pub buy_order_id : ℕ
  pub sell_order_id : ℕ
  pub price : P
  pub quantity : ℕ
  pub notional : P
  pub timestamp_ns : ℕ
  pub enqueue_time_ns : ℕ
  pub symbol : Text

pub record Queue {ℓ} (P : Type ℓ) : Type ℓ where
  pub capacity : ℕ
  pub backpressure : BackpressurePolicy
  pub queue : List (TradeEvent P)
  pub subscribers : List ℕ
  pub closed : Bool
  pub total_pushed : ℕ
  pub total_popped : ℕ
  pub dropped_count : ℕ
  pub high_watermark : ℕ
  pub total_queue_delay_ns : ℕ
  pub sequence : ℕ

-- How `push` comes out of the test for room.
pub data Admission : Type 0 where
  admitted refused raised : Admission

pub remove : ℕ → List ℕ → List ℕ
remove callback [] = []
remove callback (s ∷ subscribers) =
    if s == callback then subscribers else s ∷ remove callback subscribers

module _ {ℓ} {P : Type ℓ} where
  unfoldable pub init : ℕ → BackpressurePolicy → Queue P
  init capacity backpressure = record {
    capacity = max 1 capacity;
    backpressure = backpressure;
    queue = [];
    subscribers = [];
    closed = false;
    total_pushed = 0;
    total_popped = 0;
    dropped_count = 0;
    high_watermark = 0;
    total_queue_delay_ns = 0;
    sequence = 0;
  }

  pub subscribe : ℕ → Queue P → Queue P
  subscribe callback q = record q { subscribers = q.subscribers ++ (callback ∷ []) }

  pub unsubscribe : ℕ → Queue P → Queue P
  unsubscribe callback q = record q { subscribers = remove callback q.subscribers }

  -- `len(self._queue) >= self.capacity`
  abbrev pub is_full : Queue P → Bool
  is_full q = leb q.capacity (length q.queue)

  pub count_drop : Queue P → Queue P
  count_drop q = record q { dropped_count = q.dropped_count + 1 }

  -- The test of the `while`.
  pub must_wait : Queue P → Bool
  must_wait q = is_full q && not q.closed

  -- The `while` of `BLOCK`: one entry for each wait before the deadline. The flag says whether the
  -- loop ended by itself.
  pub wait_not_full : List (Queue P → Queue P) → Queue P → Bool × Queue P
  wait_not_full [] q = if must_wait q then (false, count_drop q) else (true, q)
  wait_not_full (others ∷ later) q =
      if must_wait q then wait_not_full later (others q) else (true, q)

  -- The `if` after the loop.
  pub blocked : Bool × Queue P → Admission × Queue P
  blocked (true, q) = (if q.closed then refused else admitted, q)
  blocked (false, q) = (refused, q)

  -- The chain of tests on the policy.
  pub apply_policy : BackpressurePolicy → List (Queue P → Queue P) → Queue P → Admission × Queue P
  apply_policy drop_oldest waits q = (admitted, count_drop (record q { queue = drop 1 q.queue }))
  apply_policy drop_newest waits q = (refused, count_drop q)
  apply_policy raise waits q = (raised, count_drop q)
  apply_policy block waits q = blocked (wait_not_full waits q)

  pub make_room : List (Queue P → Queue P) → Queue P → Admission × Queue P
  make_room waits q = if is_full q then apply_policy q.backpressure waits q else (admitted, q)

  pub append_event : TradeEvent P → Queue P → Queue P
  append_event event q = record q {
    queue = q.queue ++ (event ∷ []);
    total_pushed = q.total_pushed + 1;
    high_watermark =
        if ltb q.high_watermark (length q.queue + 1) then length q.queue + 1 else q.high_watermark;
  }

  pub finish_push : TradeEvent P → Admission × Queue P → Result Error Bool × Queue P
  finish_push event (admitted, q) = (ok true, append_event event q)
  finish_push event (refused, q) = (ok false, q)
  finish_push event (raised, q) = (err queue_full_error, q)

  pub push : List (Queue P → Queue P) → TradeEvent P → Queue P → Result Error Bool × Queue P
  push waits event q = if q.closed then (ok false, q) else finish_push event (make_room waits q)

  -- The calls of the subscribers that follow a push.
  pub fan_out : Result Error Bool → TradeEvent P → Queue P → List (ℕ × TradeEvent P)
  fan_out (ok true) event q = map (λ s. (s, event)) q.subscribers
  fan_out (ok false) event q = []
  fan_out (err e) event q = []

  -- The `for` of `pop_batch`.
  unfoldable pub pop_loop : ℕ → ℕ → List (TradeEvent P) → Queue P → List (TradeEvent P) × Queue P
  pop_loop now_ns zero batch q = (batch, q)
  pop_loop now_ns (suc count) batch q = elim q.queue [
    | [] ↦ (batch, q)
    | event ∷ rest ↦ pop_loop now_ns count (batch ++ (event ∷ [])) (record q {
      queue = rest;
      total_queue_delay_ns = q.total_queue_delay_ns + (now_ns - event.enqueue_time_ns);
    })
  ]

  unfoldable pub count_popped : List (TradeEvent P) × Queue P → List (TradeEvent P) × Queue P
  count_popped (batch, q) = (batch, record q { total_popped = q.total_popped + length batch })

  -- The wait for a first event; `timed` is `timeout > 0`.
  unfoldable pub wait_not_empty : Bool → (Queue P → Queue P) → Queue P → Queue P
  wait_not_empty timed others q =
      if length q.queue == 0 && (not q.closed && timed) then others q else q

  unfoldable pub pop_batch :
      ℕ → ℕ → Bool → (Queue P → Queue P) → Queue P → List (TradeEvent P) × Queue P
  pop_batch now_ns max_items timed others q = count_popped (
      pop_loop now_ns (min max_items (length (wait_not_empty timed others q).queue)) []
        (wait_not_empty timed others q))

  pub pop_nowait : ℕ → Queue P → Option (TradeEvent P) × Queue P
  pop_nowait now_ns q = elim q.queue [
    | [] ↦ (none, q)
    | event ∷ rest ↦ (
      some event,
      record q {
        queue = rest;
        total_popped = q.total_popped + 1;
        total_queue_delay_ns = q.total_queue_delay_ns + (now_ns - event.enqueue_time_ns);
      },
    )
  ]

  pub size : Queue P → ℕ
  size q = length q.queue

  pub is_empty : Queue P → Bool
  is_empty q = length q.queue == 0

  pub close : Queue P → Queue P
  close q = record q { closed = true }

  pub clear : Queue P → Queue P
  clear q = record q { queue = [] }

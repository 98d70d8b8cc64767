-- ===== src/TradeQueue/Examples.antt =====
-- Runs of the trade queue, and its theorems at concrete inputs.
use infotact_python_project.Prelude.{
  ℕ, ◌+◌, true, false, List, [], ◌∷◌, ◌++◌, length, ◌≡◌, ◌≢◌, refl, ok, arith,
}
use infotact_python_project.TradeQueue.{
  Queue, TradeEvent, drop_oldest, block, push, pop_batch, pop_nowait, init, append_event, make_room,
  apply_policy, count_drop, finish_push, blocked, wait_not_full, must_wait, count_popped, pop_loop,
  wait_not_empty, clear,
}
use infotact_python_project.Float.Cents.{number_ops}
use infotact_python_project.Engine.{Trade}
use infotact_python_project.TradeQueue.Events.{
  from_engine_dict, trade_id_of, decimal, digits, trade_id_unique,
}
use infotact_python_project.TradeQueue.Pops.{pop_nowait_lem}
use infotact_python_project.TradeQueue.Invariant.{IsValid}
use infotact_python_project.TradeQueue.Waiting.{KeepsBlock, push_waited, settle}
use infotact_python_project.TradeQueue.Calls.{
  Call, pushes, batches, clears, run, events_of, how_many, is_popped, is_evicted, popped, evicted,
  cleared, step,
}
use infotact_python_project.TradeQueue.Flow.{run_flow, run_bounded, arrived, departed, rejected}

abbrev event : ℕ → TradeEvent ℕ
event n = record {
  trade_id = n ∷ [];
  buy_order_id = n;
  sell_order_id = n + 100;
  price = 10050;
  quantity = 5;
  notional = 50250;
  timestamp_ns = n;
  enqueue_time_ns = n;
  symbol = [];
}

-- Three pushes into room for two, a batch, a push, a clearing.
abbrev calls : List (Call ℕ)
calls =
    pushes (event 1)
    ∷ pushes (event 2)
    ∷ pushes (event 3)
    ∷ batches 10 1
    ∷ pushes (event 4)
    ∷ clears
    ∷ []

calls-departed :
    departed calls (init 2 drop_oldest)
    ≡ (evicted, event 1) ∷ (popped, event 2) ∷ (cleared, event 3) ∷ (cleared, event 4) ∷ []
unfolding departed step push pop_batch init append_event make_room apply_policy count_drop
    finish_push count_popped pop_loop wait_not_empty clear
calls-departed = refl

run_flow_example :
    let new = init {P = ℕ} 2 drop_oldest in
    (events_of (departed calls new) ++ (run calls new).queue ≡ arrived calls new)
    × ((run calls new).total_pushed ≡ length (arrived calls new))
    × ((run calls new).total_popped ≡ how_many is_popped (departed calls new))
    × ((run calls new).dropped_count
        ≡ how_many is_evicted (departed calls new) + rejected calls new)
run_flow_example = run_flow 2 drop_oldest calls

run_bounded_example : IsValid (run calls (init {P = ℕ} 2 drop_oldest))
run_bounded_example = run_bounded 2 drop_oldest calls

-- A full queue under `BLOCK`, and a consumer that pops while the push waits.
abbrev full_queue : Queue ℕ
full_queue = record {
  capacity = 1;
  backpressure = block;
  queue = event 1 ∷ [];
  subscribers = [];
  closed = false;
  total_pushed = 1;
  total_popped = 0;
  dropped_count = 0;
  high_watermark = 1;
  total_queue_delay_ns = 0;
  sequence = 0;
}

abbrev consumer : Queue ℕ → Queue ℕ
consumer q = (pop_nowait 9 q).1

consumer-KeepsBlock : KeepsBlock consumer
consumer-KeepsBlock q h = rw (pop_nowait_lem 9 q, consumer) h

push_waited_example :
    push (consumer ∷ []) (event 2) full_queue
    ≡ push [] (event 2) (settle (consumer ∷ []) full_queue)
push_waited_example =
    push_waited (consumer ∷ []) (event 2) full_queue refl refl (consumer-KeepsBlock, tt)

full_queue-reply : (push (consumer ∷ []) (event 2) full_queue).0 ≡ ok true
unfolding push make_room apply_policy blocked wait_not_full must_wait pop_nowait finish_push
full_queue-reply = refl

-- One trade, pushed twice.
abbrev one_trade : Trade ℕ
one_trade = record { buy_id = 4; sell_id = 2; price = 10000; qty = 20 }

one_trade-id :
    trade_id_of 4 2 31 1
    ≡ b'T' ∷ b'R' ∷ b'D' ∷ b'_' ∷ b'4' ∷ b'_' ∷ b'2' ∷ b'_' ∷ b'3' ∷ b'1' ∷ b'_' ∷ b'1' ∷ []
unfolding trade_id_of decimal digits
one_trade-id = refl

trade_id_unique_example :
    (from_engine_dict number_ops 31 31 one_trade 1).trade_id
    ≢ (from_engine_dict number_ops 31 32 one_trade 2).trade_id
trade_id_unique_example =
    trade_id_unique number_ops one_trade one_trade 31 31 31 32 1 2 (λ h. absurd (omega arith))

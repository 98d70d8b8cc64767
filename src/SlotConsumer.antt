-- ===== src/SlotConsumer.antt =====
-- consumer.py: the orders that wait in the slot buffer are read, unpacked and submitted, to the
-- engine or, where that cannot be imported, to the baseline matcher. The rounds of the polling
-- loop are given, with what the clock and the other processes do in them.
pub mod Pipeline
mod Examples
use infotact_python_project.Prelude.{
  ℕ, suc, ◌+◌, Bool, true, false, ◌&&◌, if◌then◌else◌, ltb, ◌==◌, Option, none, some, List, [], ◌∷◌,
  Result, ok, err,
}
use infotact_python_project.Bytes.{Bytes, bytes_eq}
use infotact_python_project.Float.{PriceFormat}
use infotact_python_project.Processor
use infotact_python_project.Processor.{Text, unpack_order, buy_text}
use infotact_python_project.Engine
use infotact_python_project.Engine.{Engine}
use infotact_python_project.Baseline
use infotact_python_project.Baseline.{OrderBook, buy_side, new_book}
use infotact_python_project.Consumer.{unsigned, submitted}
use infotact_python_project.SlotBuffer
use infotact_python_project.SlotBuffer.{Buffer, attach, read}

pub data Error : Type 0 where
  buffer_error : SlotBuffer.Error → Error
  order_error : Processor.Error → Error

-- How the loop ends; `polling` if the rounds given are over first.
pub data Outcome : Type 0 where
  finished timed_out polling : Outcome
  failed : Error → Outcome

-- A round: whether the time without an order is over, and what other processes do to the map
-- after a read that finds nothing, while this one sleeps.
pub record Poll : Type 0 where
  pub is_late : Bool
  pub others : Buffer → Buffer

pub record Poller {ℓ} (E : Type ℓ) : Type ℓ where
  pub buf : Buffer
  pub engine : E
  pub received : ℕ

abbrev pub sell_side : Text
sell_side = b's' ∷ b'e' ∷ b'l' ∷ b'l' ∷ []

module _ {ℓ} {P : Type ℓ} (f : PriceFormat P) where
  -- The call of `engine.add_order` in either case.
  unfoldable pub add_to_engine : Processor.Order P → Engine P → Engine P
  add_to_engine order e = Engine.add_order ⦃o = f.order⦄ (submitted order) e

  abbrev pub book_order : Processor.Order P → Baseline.Order P
  book_order order = record {
    order_id = unsigned order.order_id;
    side = if bytes_eq order.side buy_text then buy_side else sell_side;
    price = order.price;
    qty = unsigned order.quantity;
    timestamp = unsigned order.timestamp_ns;
  }

  unfoldable pub add_to_book : Processor.Order P → OrderBook P → OrderBook P
  add_to_book order b = Baseline.add_order ⦃o = f.order⦄ (book_order order) b

  module _ {κ} {E : Type κ} (add : Processor.Order P → E → E) where
    -- The `while`; its parts after the read, and after the unpacking, take the rest of the loop.
    unfoldable pub poll_loop : ℕ → List Poll → Poller E → Outcome × Poller E
    poll_loop num_orders [] c = if ltb c.received num_orders then (polling, c) else (finished, c)
    poll_loop num_orders (poll ∷ polls) c = elim (ltb c.received num_orders) [
      | false ↦ (finished, c)
      | true ↦ elim (read c.buf).0 [
        | err e ↦ (failed (buffer_error e), record c { buf = (read c.buf).1 })
        | ok found ↦ elim found [
          | none ↦ elim (poll.is_late && c.received == 0) [
            | true ↦ (timed_out, record c { buf = (read c.buf).1 })
            | false ↦ poll_loop num_orders polls (record c { buf = poll.others (read c.buf).1 })
          ]
          | some bs ↦ elim (unpack_order f bs) [
            | err e ↦ (failed (order_error e), record c { buf = (read c.buf).1 })
            | ok order ↦ poll_loop num_orders polls (record {
              buf = (read c.buf).1;
              engine = add order c.engine;
              received = c.received + 1;
            })
          ]
        ]
      ]
    ]

    -- `open_buffer(BUFFER_PATH, create=False)` on a file with these bytes, and a new engine.
    unfoldable pub poll_file : E → ℕ → List Poll → Bytes → Outcome × Poller E
    poll_file new num_orders polls file =
        poll_loop num_orders polls (record { buf = attach file; engine = new; received = 0 })

  unfoldable pub run_consumer : ℕ → List Poll → Bytes → Outcome × Poller (Engine P)
  run_consumer = poll_file add_to_engine (Engine.init P)

  unfoldable pub run_fallback : ℕ → List Poll → Bytes → Outcome × Poller (OrderBook P)
  run_fallback = poll_file add_to_book (new_book P)

-- ===== src/SlotConsumer/Examples.antt =====
-- The pipeline with three orders, drawn from a counter.
use infotact_python_project.Prelude.{ℕ, false, none, ok, List, [], ◌∷◌, map, ◌≡◌, arith}
use infotact_python_project.Float.Cents.{Cents, cents_format, cents_ops, cents_of, cents_rounds_up}
use infotact_python_project.Engine
use infotact_python_project.Consumer.{submitted}
use infotact_python_project.Simulator.Counter.{counter}
use infotact_python_project.Firehose
use infotact_python_project.Firehose.{firehose}
use infotact_python_project.Firehose.Sent.{sent_orders}
use infotact_python_project.SlotConsumer.{Poll, finished, run_consumer, run_fallback}
use infotact_python_project.SlotConsumer.Pipeline.{pipeline}
use infotact_python_project.Bytes.{Bytes}

abbrev poll : Poll
poll = record { is_late = false; others = λ b. b }

abbrev polls : List Poll
polls = poll ∷ poll ∷ poll ∷ poll ∷ []

abbrev clock : ℕ → ℕ
clock i = 77

abbrev file : Bytes
file = (firehose cents_format cents_ops counter clock 3 none 7).1.buf.map

pipeline_example :
    ((firehose cents_format cents_ops counter clock 3 none 7).0 ≡ ok 3)
    × ((run_consumer cents_format 3 polls file).0 ≡ finished)
    × ((run_consumer cents_format 3 polls file).1.received ≡ 3)
    × ((run_consumer cents_format 3 polls file).1.engine
        ≡ Engine.add_orders ⦃o = cents_format.order⦄
            (map submitted (sent_orders cents_format cents_ops counter (cents_of 100) clock 3 0 7))
            (Engine.init Cents))
    × ((run_fallback cents_format 3 polls file).0 ≡ finished)
    × ((run_fallback cents_format 3 polls file).1.engine.trades
        ≡ (run_consumer cents_format 3 polls file).1.engine.trades)
unfolding Firehose.slots_of
pipeline_example =
    pipeline cents_format cents_ops counter cents_rounds_up clock 3 none 7 polls (omega arith)
      (omega arith) (omega arith) (λ k. omega arith) (omega arith)

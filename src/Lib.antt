-- ===== src/Lib.antt =====
-- ChronosMatch, a simulated high-frequency trading pipeline: orders are checked and packed into
-- records of 33 bytes, pass between processes through memory-mapped ring buffers, and meet a limit
-- order book; the trades go through a bounded queue to a worker that writes them to a database.
--
-- The parts, the files that model them, and how they meet:
--   Engine      src/engine/matching_engine.py, `MatchingEngine`: `add_order` with both matching
--               loops, and the snapshot of the best prices.
--   Compiled    src/engine/matching_engine.pyx, the compiled `MatchingEngine`: `add_order`, the batch (Batch),
--               and what it shows (Depth, Ladder); it keeps its sides sorted. Matched compares it
--               with Engine, over the places that Insertion and Walk find.
--   Baseline    src/model/baseline_matcher.py, `OrderBook`: the fallback matcher, which does what
--               Engine does.
--   Processor   src/data_processing/processor.py, `DataProcessor`: `create_order`, `pack_order`,
--               `unpack_order`, `process_order`, `process_orders`.
--   FileRing    src/ipc/ring_buffer.py, `MmapRingBuffer`: opening, `put`, `get`, on the bytes of the
--               file; `FileRing.Fifo` is the queue that it promises.
--   Consumer    src/ipc/consumer.py, `RingBufferConsumer`: takes records off a FileRing, unpacks them
--               as Processor does and submits them to Engine.
--   SlotBuffer  src/data_processing/ipc_buffer.py, `RingBuffer`: the buffer between firehose.py and
--               consumer.py, with an index for the writer and one for the reader.
--   EventRing   src/ipc/mmap_buffer.py, `MmapRingBuffer`: a ring that a slow reader loses, with its
--               drops counted.
--   TradeQueue  src/ipc/trade_queue.py, `TradeEventQueue`: pushes under four policies, pops, waits.
--   Repository  src/persistence/repository.py: the interface `BaseTradeRepository` as a record of the
--               call and its laws, and `SQLiteTradeRepository` on a table, which satisfies them
--               (`Worker.Stored` is the worker over it).
--   Worker      src/persistence/worker.py, `BackgroundPersistenceWorker`: takes batches off a
--               TradeQueue and writes them to any Repository.
--   Metrics     src/analysis/metrics.py: `LatencyTracker` (Latency), and what `OrderBookAnalytics` reads
--               off a book and its trades.
--   Simulator   src/analysis/simulator.py, `MockMarketSimulator`: the random orders of a feed.
--   Firehose    firehose.py: the loop that packs random orders and writes them to a SlotBuffer.
--   SlotConsumer  consumer.py: the loop that reads a SlotBuffer and submits to Engine, or to Baseline
--               where Engine is missing; `SlotConsumer.Pipeline` is Firehose and this together.
--   Monitor     src/monitor/latency_monitor.py, `LatencyMonitor`, which owns an Engine, a Simulator
--               and a TradeQueue: Monitor.Orders (orders, fills, sweeps, the trades handed to
--               the queue), Monitor.Book (the top of the book), Monitor.Views (latencies), Monitor.State
--               (what the screen shows), Monitor.Dashboard (the keys and the loop); under it Tracked,
--               Flow, Runs and Sweeps hold what is proved.
-- Prelude (with Sorted), Bytes (struct and slices), Float (prices; Float.Cents is a concrete
-- arithmetic) and Window (circular buffers) are shared.
--
-- How the program is read. An object is a record of its attributes, and a method a function from the
-- arguments and the record to what it returns and the record after it. An exception is an `err`. The
-- buffers are models of their bytes: an index is decoded from the map at each call and packed again.
-- A call under a lock is one step; calls of several threads or processes are sequences of steps, and
-- where a call waits, what the others do meanwhile is an argument. A clock reading is an argument.
-- Numbers that the program checks to be non-negative are natural numbers, `create_order` takes
-- integers. A price is of any type with a total order (`Float.PriceOrder`) and, where it is packed, an
-- encoding of 8 bytes (`Float.PriceFormat`): what is used of Python's floats, without NaN. Where the
-- program computes with floats, the operations are a record (`Float.FloatOps`), of which a theorem may
-- ask for documented laws of rounding. Random numbers are answers of a parameter.
--
-- Fuel. The matching loop has the length of the book and one more, since every round but the last
-- removes a resting order (`Engine.Sweep`). The loop of `drain` has the count of the ring and one
-- more, the loop of the shutdown the size of the queue and one more; the theorems on them say that
-- the loops end by themselves. The loop of Compiled has as much as that of Engine, with which it is
-- shown to agree. The loops of consumer.py and of the dashboards have no end of their own: they take the rounds they
-- run as a list. The digits of a number have the number and one more.
--
-- Not modelled: the growth of the compiled engine's arrays, the conversion of its arguments to C types,
-- and the branches of the monitor that serve it; the drawing and formatting of text; the start and
-- the joining of the worker's thread; files, sockets, threads, locks and connections themselves;
-- benchmarks, demonstrations, plots and tests.
pub mod Prelude
pub mod Bytes
pub mod Float
pub mod Window
pub mod Engine
pub mod Processor
pub mod FileRing
pub mod Consumer
pub mod TradeQueue
pub mod SlotBuffer
pub mod Repository
pub mod Worker
pub mod EventRing
pub mod Baseline
pub mod Compiled
pub mod Simulator
pub mod Metrics
pub mod Monitor
pub mod Firehose
pub mod SlotConsumer

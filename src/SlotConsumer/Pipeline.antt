-- ===== src/SlotConsumer/Pipeline.antt =====
-- The pipeline: what firehose.py writes, consumer.py reads and submits, to either matcher.
use infotact_python_project.Prelude.{
  ℕ, zero, suc, ◌+◌, ◌-◌, ◌/◌, ◌^◌, ◌≤◌, ◌<◌, Bool, true, false, if◌then◌else◌, ltb, Option, some,
  ok, List, [], ◌∷◌, ◌++◌, map, length, ◌≡◌, refl, ap, ap₂, sym, ◌∙◌, arith,
}
use infotact_python_project.Bytes.{Bytes, bytes_eq}
use infotact_python_project.Float.{PriceFormat, FloatOps}
use infotact_python_project.Processor
use infotact_python_project.Processor.{unpack_order, buy_text, order_size}
use infotact_python_project.Engine
use infotact_python_project.Engine.{Engine, buy, sell}
use infotact_python_project.Baseline
use infotact_python_project.Baseline.{OrderBook, buy_side, new_book}
use infotact_python_project.Baseline.Rounds.{engine_order, engine_orders}
use infotact_python_project.Baseline.Equivalent.{baseline_equivalent}
use infotact_python_project.Consumer.{submitted}
use infotact_python_project.SlotBuffer.{Buffer, attach, read, header_size}
use infotact_python_project.SlotBuffer.Indices.{IsValid}
use infotact_python_project.SlotBuffer.Refine.{contents, read_refines}
use infotact_python_project.SlotBuffer.Runs.{create_file_lem}
use infotact_python_project.Simulator.{Random}
use infotact_python_project.Simulator.Orders.{RoundsUp}
use infotact_python_project.Firehose.{firehose, slots_of}
use infotact_python_project.Firehose.Sent.{sent_orders, firehose-Wrote}
use infotact_python_project.SlotConsumer.{
  Poll, Poller, finished, add_to_engine, add_to_book, book_order, sell_side, poll_loop, poll_file,
  run_consumer, run_fallback,
}

abbrev add_all {ℓ κ} : {A : Type ℓ} {E : Type κ} → (A → E → E) → List A → E → E
add_all add [] e = e
add_all add (x ∷ xs) e = add_all add xs (add x e)

attach_map : (b : Buffer) → IsValid b → attach b.map ≡ b
unfolding attach
attach_map b v =
    ap (λ (k : ℕ). let c : Buffer = record { num_slots = k; map = b.map } in c)
      {x = (length b.map - header_size) / order_size} {y = b.num_slots}
      (omega (arith, v.length_map))

module _ {ℓ} {P : Type ℓ} (f : PriceFormat P) where
  module _ {κ} {E : Type κ} (add : Processor.Order P → E → E) where
    abbrev Ends : ℕ → List Poll → Poller E → E → Type κ
    Ends num_orders polls c e =
        (b : Buffer) × (poll_loop f add num_orders polls c
          ≡ (finished, record { buf = b; engine = e; received = num_orders }))

    poll_loop_done :
        (num_orders : ℕ) (polls : List Poll) (c : Poller E)
        → c.received ≡ num_orders
        → poll_loop f add num_orders polls c ≡ (finished, c)
    unfolding poll_loop
    poll_loop_done num_orders [] c h =
        let stop : ltb c.received num_orders ≡ false = ground arith in rw stop refl
    poll_loop_done num_orders (poll ∷ polls) c h =
        let stop : ltb c.received num_orders ≡ false = ground arith in rw (stop, poll_loop) refl

    -- The loop takes all records that wait, with a round for each.
    poll_loop-Ends :
        (num_orders : ℕ) (records : List Bytes) (orders : List (Processor.Order P))
        (polls : List Poll) (c : Poller E)
        → IsValid c.buf
        → contents c.buf ≡ records
        → map (unpack_order f) records ≡ map ok orders
        → c.received + length orders ≡ num_orders
        → length orders ≤ length polls
        → Ends num_orders polls c (add_all add orders c.engine)
    unfolding poll_loop
    poll_loop-Ends num_orders (x ∷ records) [] polls c v e back count enough = absurd (cc)
    poll_loop-Ends num_orders [] (order ∷ orders) polls c v e back count enough = absurd (cc)
    poll_loop-Ends num_orders records (order ∷ orders) [] c v e back count enough =
        absurd (omega arith)
    poll_loop-Ends num_orders [] [] polls c v e back count enough = (
      c.buf,
      poll_loop_done num_orders polls c (omega arith)
          ∙ ap (λ n. (finished, record c { received = n })) {x = c.received} {y = num_orders}
              (omega arith),
    )
    poll_loop-Ends num_orders (x ∷ records) (order ∷ orders) (poll ∷ polls) c v e back count
          enough =
        let (v', _, _, gets, left) = read_refines c.buf v in
        let rest =
          poll_loop-Ends num_orders records orders polls
            (record {
              buf = (read c.buf).1;
              engine = add order c.engine;
              received = c.received + 1;
            })
            v' (rw e at left) (cc) (omega arith) (omega arith) in
        let more : ltb c.received num_orders ≡ true = ground arith in
        let found : (read c.buf).0 ≡ ok (some x) = rw e at gets in
        let unpacks : unpack_order f x ≡ ok order = cc in
        (rest.0, rw (more, found, unpacks, poll_loop) rest.1)

  add_all-engine :
      (orders : List (Processor.Order P)) (e : Engine P)
      → add_all (add_to_engine f) orders e
        ≡ Engine.add_orders ⦃o = f.order⦄ (map submitted orders) e
  unfolding add_to_engine Engine.add_orders
  add_all-engine [] e = refl
  add_all-engine (order ∷ orders) e = add_all-engine orders (add_to_engine f order e)

  add_all-book :
      (orders : List (Processor.Order P)) (b : OrderBook P)
      → add_all (add_to_book f) orders b
        ≡ Baseline.add_orders ⦃o = f.order⦄ (map (book_order f) orders) b
  unfolding add_to_book Baseline.add_orders
  add_all-book [] b = refl
  add_all-book (order ∷ orders) b = add_all-book orders (add_to_book f order b)

  same_side :
      (b : Bool)
      → (if bytes_eq (if b then buy_side else sell_side) buy_side then buy else sell)
        ≡ (if b then buy else sell)
  unfolding bytes_eq
  same_side true = refl
  same_side false = refl

  same_orders :
      (orders : List (Processor.Order P))
      → engine_orders (map (book_order f) orders) ≡ map submitted orders
  unfolding submitted
  same_orders [] = refl
  same_orders (order ∷ orders) =
      ap₂ (λ x xs. x ∷ xs)
        (ap
          (λ (side : ℕ).
            let o : Engine.Order P = record (engine_order (book_order f order)) { side = side } in
            o)
          (same_side (bytes_eq order.side buy_text)))
        (same_orders orders)

module _ {ℓ κ} {P : Type ℓ} {G : Type κ} (p : PriceFormat P) (f : FloatOps P) (r : Random P G) where
  length-sent_orders :
      (base : P) (clock : ℕ → ℕ) (n i : ℕ) (g : G) → length (sent_orders p f r base clock n i g) ≡ n
  unfolding sent_orders
  length-sent_orders base clock zero i g = refl
  length-sent_orders base clock (suc n) i g = ap suc (length-sent_orders base clock n (i + 1) _)

  -- The firehose writes `n` orders into a new file with a slot for each, and none is refused. A
  -- consumer that then opens the file, with a round of its loop for each order, ends with all of
  -- them received, and the engine is as if it had been handed the orders that were drawn, one
  -- after the other; with the baseline matcher in place of the engine the trades are the same.
  -- Identifiers, and clock readings, stay below 2^64, and rounding keeps a price of 1.0 or more
  -- positive.
  pub pipeline :
      RoundsUp p f
      → (clock : ℕ → ℕ) (n : ℕ) (slots : Option ℕ) (g : G) (polls : List Poll) → 0 < n
      → n < 2 ^ 64
      → n ≤ slots_of slots n
      → ((k : ℕ) → clock k < 2 ^ 64)
      → n ≤ length polls
      → let (reply, feed) = firehose p f r clock n slots g in
        let (outcome, last) = run_consumer p n polls feed.buf.map in
        let (outcome', last') = run_fallback p n polls feed.buf.map in
        (reply ≡ ok n)
        × (outcome ≡ finished)
        × (last.received ≡ n)
        × (last.engine
            ≡ Engine.add_orders ⦃o = p.order⦄
                (map submitted (sent_orders p f r (f.float 100) clock n 0 g))
                (Engine.init P))
        × (outcome' ≡ finished)
        × (last'.engine.trades ≡ last.engine.trades)
  unfolding run_consumer run_fallback poll_file
  pipeline up clock n slots g polls some_order few enough early rounds =
      let w = firehose-Wrote p f r up clock n slots g some_order few enough early in
      let b = (firehose p f r clock n slots g).1.buf in
      let orders = sent_orders p f r (f.float 100) clock n 0 g in
      let empty = (create_file_lem (slots_of slots n) (omega arith)).1 in
      let stored : contents b ≡ w.records = w.stored ∙ ap (λ l. l ++ w.records) empty in
      let size = length-sent_orders (f.float 100) clock n 0 g in
      let (_, ends) =
        poll_loop-Ends p (add_to_engine p) n w.records orders polls
          (record { buf = b; engine = Engine.init P; received = 0 }) w.valid stored w.back
          (omega (arith, size)) (omega (arith, size)) in
      let (_, ends') =
        poll_loop-Ends p (add_to_book p) n w.records orders polls
          (record { buf = b; engine = new_book P; received = 0 }) w.valid stored w.back
          (omega (arith, size)) (omega (arith, size)) in
      let book = Baseline.add_orders ⦃o = p.order⦄ (map (book_order p) orders) (new_book P) in
      let alike : Engine.add_orders ⦃o = p.order⦄ (map submitted orders) (Engine.init P)
          ≡ Engine.add_orders ⦃o = p.order⦄ (engine_orders (map (book_order p) orders))
              (Engine.init P) =
        ap (λ l. Engine.add_orders ⦃o = p.order⦄ l (Engine.init P)) (sym (same_orders p orders)) in
      rw (attach_map b w.valid, ends, ends')
        (
          w.all_written ∙ ap ok {x = 0 + n} {y = n} (omega arith),
          refl,
          refl,
          add_all-engine p orders (Engine.init P),
          refl,
          ap (λ x. x.trades) (add_all-book p orders (new_book P))
              ∙ sym (
                  ap (λ e. e.trades)
                    (add_all-engine p orders (Engine.init P)
                      ∙ alike
                      ∙ baseline_equivalent ⦃o = p.order⦄ (map (book_order p) orders))),
        )

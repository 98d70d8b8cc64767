-- ===== src/Firehose.antt =====
-- firehose.py: mock orders are drawn, packed, and written to the slot buffer. The random numbers
-- are a parameter, the clock a function of the number of the order. Nobody else acts on the map
-- meanwhile: a consumer that attaches later is SlotConsumer.
pub mod Sent
use infotact_python_project.Prelude.{
  ℕ, zero, suc, ◌+◌, Bool, true, false, if◌then◌else◌, ◌==◌, Option, none, some, Result, ok, err, ℤ,
  pos,
}
use infotact_python_project.Bytes.{Bytes}
use infotact_python_project.Float.{PriceFormat, FloatOps, less}
use infotact_python_project.Processor
use infotact_python_project.Processor.{
  Processor, Request, create_order, pack_order, buy_text, sell_text,
}
use infotact_python_project.SlotBuffer
use infotact_python_project.SlotBuffer.{Buffer, create_file, write}
use infotact_python_project.Simulator.{Random, mock_price, mock_quantity}

pub data Error : Type 0 where
  order_error : Processor.Error → Error
  buffer_error : SlotBuffer.Error → Error

pub record Feed {ℓ} (G : Type ℓ) : Type ℓ where
  pub buf : Buffer
  pub processor : Processor
  pub rng : G

-- `args.slots if args.slots else args.orders`
unfoldable pub slots_of : Option ℕ → ℕ → ℕ
slots_of none orders = orders
slots_of (some slots) orders = if slots == 0 then orders else slots

-- What comes of `buf.write`.
unfoldable pub sent {ℓ} :
    {G : Type ℓ} → G → Processor → Result SlotBuffer.Error ℕ × Buffer → Result Error ℕ × Feed G
sent rng p (ok index, b) = (ok index, record { buf = b; processor = p; rng = rng })
sent rng p (err e, b) = (err (buffer_error e), record { buf = b; processor = p; rng = rng })

-- What comes of `processor.pack_order`.
unfoldable pub packed {ℓ} :
    {G : Type ℓ} → G → Buffer → Result Processor.Error Bytes × Processor → Result Error ℕ × Feed G
packed rng b (ok bs, p) = sent rng p (write bs b)
packed rng b (err e, p) = (err (order_error e), record { buf = b; processor = p; rng = rng })

module _ {ℓ κ} {P : Type ℓ} {G : Type κ} (p : PriceFormat P) (f : FloatOps P) (r : Random P G) where
  -- The draws of one order.
  unfoldable pub draw : P → ℕ → G → Request P × G
  draw base_price i g =
      let (u, g1) = r.uniform g in
      let (drift, g2) = r.gauss (f.float 0) (f.div (f.float 8) (f.float 10)) g1 in
      let (v, g3) = r.uniform g2 in
      let (quantity, g4) =
        mock_quantity ⦃o = p.order⦄ f r (less ⦃o = p.order⦄ v (f.div (f.float 2) (f.float 100)))
          g3 in
      (
        record {
          order_id = pos i;
          side =
              if less ⦃o = p.order⦄ u (f.div (f.float 5) (f.float 10)) then buy_text else sell_text;
          price = mock_price ⦃o = p.order⦄ f r base_price drift;
          quantity = pos quantity;
        },
        g4,
      )

  -- One round of the loop.
  unfoldable pub send : P → (ℕ → ℕ) → ℕ → Feed G → Result Error ℕ × Feed G
  send base_price clock i s =
      let (request, rng) = draw base_price i s.rng in
      elim (create_order p request none (pos (clock i))) [
        | ok order ↦ packed rng s.buf (pack_order p order s.processor)
        | err e ↦ (err (order_error e), record s { rng = rng })
      ]

  -- The loop from the order `i` on: `written` counts the orders of the rounds before.
  unfoldable pub generate_and_write : P → (ℕ → ℕ) → ℕ → ℕ → ℕ → Feed G → Result Error ℕ × Feed G
  generate_and_write base_price clock zero i written s = (ok written, s)
  generate_and_write base_price clock (suc n) i written s = elim (send base_price clock i s).0 [
    | ok index ↦
        generate_and_write base_price clock n (i + 1) (written + 1) (send base_price clock i s).1
    | err e ↦ (err e, (send base_price clock i s).1)
  ]

  -- `main`, with a new file.
  unfoldable pub firehose : (ℕ → ℕ) → ℕ → Option ℕ → G → Result Error ℕ × Feed G
  firehose clock num_orders slots g =
      generate_and_write (f.float 100) clock num_orders 0 0 (record {
        buf = create_file (slots_of slots num_orders);
        processor = record { processed_count = 0 };
        rng = g;
      })

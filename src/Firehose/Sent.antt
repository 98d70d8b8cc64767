-- ===== src/Firehose/Sent.antt =====
-- What the firehose (firehose.py) puts into the slot buffer: no order is refused, and each can be
-- unpacked.
use infotact_python_project.Prelude.{
  ℕ, zero, suc, ◌+◌, ◌^◌, ◌≤◌, ◌<◌, Bool, true, false, ◌||◌, if◌then◌else◌, Option, none, Result,
  ok, err, pos, is_nonpositive, List, [], ◌∷◌, ◌++◌, map, length, length-append, ◌≡◌, refl, ap, ap₂,
  sym, ◌∙◌, subst, append-nil, append_assoc, inl, inr, arith,
}
use infotact_python_project.Bytes.{Bytes, bytes_eq}
use infotact_python_project.Float.{PriceFormat, FloatOps}
use infotact_python_project.Processor
use infotact_python_project.Processor.{
  Processor, Request, create_order, pack_order, unpack_order, buy_text, sell_text, upper,
  order_size,
}
use infotact_python_project.Processor.Create.{Accepts, created, create_order-Accepts}
use infotact_python_project.Processor.Format.{IsSide, IsPackable, unpack_order-pack_order}
use infotact_python_project.SlotBuffer.{Buffer, create_file, write, get_write_index}
use infotact_python_project.SlotBuffer.Indices.{IsValid}
use infotact_python_project.SlotBuffer.Runs.{
  create_file_lem, new_write_index, num_slots-create_file,
}
use infotact_python_project.SlotBuffer.Refine.{contents, pending, length-contents, write_refines}
use infotact_python_project.Simulator.{Random}
use infotact_python_project.Simulator.Orders.{RoundsUp, mock_quantity_bounds, mock_price_positive}
use infotact_python_project.Firehose.{
  Feed, Error, sent, packed, draw, send, generate_and_write, firehose, slots_of,
}

module _ {ℓ κ} {P : Type ℓ} {G : Type κ} (p : PriceFormat P) (f : FloatOps P) (r : Random P G) where
  -- The order of a round, as `create_order` makes it, and those of all rounds.
  abbrev pub order_at : P → (ℕ → ℕ) → ℕ → G → Processor.Order P
  order_at base clock i g = created p (draw p f r base i g).0 none (pos (clock i))

  unfoldable pub sent_orders : P → (ℕ → ℕ) → ℕ → ℕ → G → List (Processor.Order P)
  sent_orders base clock zero i g = []
  sent_orders base clock (suc n) i g =
      order_at base clock i g ∷ sent_orders base clock n (i + 1) (draw p f r base i g).1

  side_ok :
      (b : Bool)
      → (bytes_eq (upper (if b then buy_text else sell_text)) buy_text
          || bytes_eq (upper (if b then buy_text else sell_text)) sell_text)
        ≡ true
  unfolding bytes_eq upper
  side_ok true = refl
  side_ok false = refl

  IsSide-upper : (b : Bool) → IsSide p (upper (if b then buy_text else sell_text))
  unfolding upper
  IsSide-upper true = inl refl
  IsSide-upper false = inr refl

  some_quantity : (n : ℕ) → 1 ≤ n → is_nonpositive (pos n) ≡ false
  some_quantity n h = ground arith

  draw-Accepts : RoundsUp p f → (base : P) (i : ℕ) (g : G) → Accepts p (draw p f r base i g).0
  unfolding draw
  draw-Accepts up base i g = record {
    side = side_ok _;
    order_id = refl;
    price = mock_price_positive p f r up base _;
    quantity = some_quantity _ (mock_quantity_bounds p f r _ _).0;
  }

  order_at-IsPackable :
      (base : P) (clock : ℕ → ℕ) (i : ℕ) (g : G)
      → i < 2 ^ 64
      → clock i < 2 ^ 64
      → IsPackable p (order_at base clock i g)
  unfolding draw
  order_at-IsPackable base clock i g h k = record {
    order_id = (i, refl, h);
    quantity = (_, refl, omega (arith, mock_quantity_bounds p f r _ _));
    timestamp_ns = (clock i, refl, k);
  }

  -- A buffer with room for `n` orders more, and indices that stay below 2^64.
  record HasRoom (n : ℕ) (b : Buffer) : Type 0 where
    valid : IsValid b
    room : pending b + n ≤ b.num_slots
    index : get_write_index b + n < 2 ^ 64

  -- What writing the order of a round leaves.
  record Sends (base : P) (clock : ℕ → ℕ) (i n : ℕ) (s : Feed G) : Type (ℓ ⊔ κ) where
    index : ℕ
    after : Feed G
    written : send p f r base clock i s ≡ (ok index, after)
    rng : after.rng ≡ (draw p f r base i s.rng).1
    room : HasRoom n after.buf
    slots : after.buf.num_slots ≡ s.buf.num_slots
    rec : Bytes
    stored : contents after.buf ≡ contents s.buf ++ (rec ∷ [])
    back : unpack_order p rec ≡ ok (order_at base clock i s.rng)

  send-Sends :
      RoundsUp p f
      → (base : P) (clock : ℕ → ℕ) (i n : ℕ) (s : Feed G) → i < 2 ^ 64
      → clock i < 2 ^ 64
      → HasRoom (suc n) s.buf
      → Sends base clock i n s
  unfolding send packed sent
  send-Sends up base clock i n s small early h =
      elim (unpack_order-pack_order p (order_at base clock i s.rng) s.processor
        (unfold draw in IsSide-upper _)) [
          | inr (no_fit, e) ↦ absurd (no_fit (order_at-IsPackable base clock i s.rng small early))
          | inl (fit, (bs, packs, size, back)) ↦
              let creates =
                create_order-Accepts p (draw p f r base i s.rng).0 none (pos (clock i))
                  (draw-Accepts up base i s.rng) in
              let (wrote, valid, slots, index, stored) =
                write_refines s.buf h.valid bs size (omega (arith, h.index))
                  (omega (arith, h.room)) in
              let all : write bs s.buf ≡ (ok (get_write_index s.buf), (write bs s.buf).1) =
                ap (λ x. (x, (write bs s.buf).1)) wrote in
              record {
                index = get_write_index s.buf;
                after = record {
                  buf = (write bs s.buf).1;
                  processor = record { processed_count = s.processor.processed_count + 1 };
                  rng = (draw p f r base i s.rng).1;
                };
                written = rw (creates, packs, all, send, packed, sent) refl;
                rng = refl;
                room = record {
                  valid = valid;
                  room = omega (
                    arith,
                    h.room,
                    slots,
                    length-contents (write bs s.buf).1,
                    length-contents s.buf,
                    ap length stored,
                    length-append (contents s.buf) (bs ∷ []),
                  );
                  index = omega (arith, h.index, index);
                };
                slots = slots;
                rec = bs;
                stored = stored;
                back = back;
              }
        ]

  -- What the loop leaves: all orders written, and in the buffer, behind what was there, records
  -- that unpack into them.
  pub record Wrote (base : P) (clock : ℕ → ℕ) (n i written : ℕ) (s : Feed G)
      (done : Result Error ℕ × Feed G) : Type ℓ where
    pub all_written : done.0 ≡ ok (written + n)
    pub valid : IsValid done.1.buf
    pub slots : done.1.buf.num_slots ≡ s.buf.num_slots
    pub records : List Bytes
    pub stored : contents done.1.buf ≡ contents s.buf ++ records
    pub back : map (unpack_order p) records ≡ map ok (sent_orders base clock n i s.rng)

  generate_and_write_step :
      (base : P) (clock : ℕ → ℕ) (n i written index : ℕ) (s after : Feed G)
      → send p f r base clock i s ≡ (ok index, after)
      → generate_and_write p f r base clock (suc n) i written s
        ≡ generate_and_write p f r base clock n (i + 1) (written + 1) after
  unfolding generate_and_write
  generate_and_write_step base clock n i written index s after e =
      ap
        (λ (x : Result Error ℕ × Feed G).
          let y : Result Error ℕ × Feed G = elim x.0 [
            | ok k ↦ generate_and_write p f r base clock n (i + 1) (written + 1) x.1
            | err k ↦ (err k, x.1)
          ] in
          y)
        e

  generate_and_write-Wrote :
      RoundsUp p f
      → (base : P) (clock : ℕ → ℕ) (n i written : ℕ) (s : Feed G) → i + n ≤ 2 ^ 64
      → ((k : ℕ) → clock k < 2 ^ 64)
      → HasRoom n s.buf
      → Wrote base clock n i written s (generate_and_write p f r base clock n i written s)
  unfolding sent_orders
  generate_and_write-Wrote up base clock zero i written s small early h =
      unfold generate_and_write in
      record {
        all_written = ap ok {x = written} {y = written + 0} (omega arith);
        valid = h.valid;
        slots = refl;
        records = [];
        stored = sym (append-nil (contents s.buf));
        back = refl;
      }
  generate_and_write-Wrote up base clock (suc n) i written s small early h =
      let one = send-Sends up base clock i n s (omega arith) (early i) h in
      let rest =
        generate_and_write-Wrote up base clock n (i + 1) (written + 1) one.after (omega arith) early
          one.room in
      subst (Wrote base clock (suc n) i written s)
        (sym (generate_and_write_step base clock n i written one.index s one.after one.written))
        (record {
          all_written =
              rest.all_written ∙ ap ok {x = written + 1 + n} {y = written + suc n} (omega arith);
          valid = rest.valid;
          slots = rest.slots ∙ one.slots;
          records = one.rec ∷ rest.records;
          stored =
              rest.stored
              ∙ ap (λ l. l ++ rest.records) one.stored
              ∙ append_assoc (contents s.buf) (one.rec ∷ []) rest.records;
          back =
              ap₂ (λ x xs. x ∷ xs) one.back
                (rest.back ∙ ap (λ g. map ok (sent_orders base clock n (i + 1) g)) one.rng);
        })

  -- With a slot for each order, the firehose writes all of its orders and none is refused.
  pub firehose-Wrote :
      RoundsUp p f
      → (clock : ℕ → ℕ) (n : ℕ) (slots : Option ℕ) (g : G) → 0 < n
      → n < 2 ^ 64
      → n ≤ slots_of slots n
      → ((k : ℕ) → clock k < 2 ^ 64)
      → Wrote
          (f.float 100)
          clock
          n
          0
          0
          (record {
            buf = create_file (slots_of slots n);
            processor = record { processed_count = 0 };
            rng = g;
          })
          (firehose p f r clock n slots g)
  unfolding firehose
  firehose-Wrote up clock n slots g some_order few enough early =
      let (valid, empty) = create_file_lem (slots_of slots n) (omega arith) in
      generate_and_write-Wrote up (f.float 100) clock n 0 0 _ (omega arith) early (record {
        valid = valid;
        room = omega (
          arith,
          length-contents (create_file (slots_of slots n)),
          ap length empty,
          num_slots-create_file (slots_of slots n),
        );
        index = omega (arith, new_write_index (slots_of slots n));
      })

-- ===== src/Consumer/Examples.antt =====
-- One order through the pipeline: put on the file ring by one process, and drained by another.
use infotact_python_project.Prelude.{
  ◌+◌, ◌^◌, ◌<◌, none, [], ◌∷◌, map, length, drop, ok, pos, ◌≡◌, refl, ap, ◌∙◌, arith,
}
use infotact_python_project.Bytes.{Bytes, decode, read_at}
use infotact_python_project.Float.Cents.{Cents, cents_unpack, cents_format}
use infotact_python_project.Processor
use infotact_python_project.Processor.{unpack_order, sell_text}
use infotact_python_project.Engine
use infotact_python_project.Engine.{add_orders}
use infotact_python_project.FileRing.{Ring, put}
use infotact_python_project.FileRing.Fifo
use infotact_python_project.FileRing.Invariant.{IsValid}
use infotact_python_project.FileRing.Refine.{contents, contents_empty, put_refines}
use infotact_python_project.FileRing.Opening.{new_ring, new_ring-IsValid, new_header}
use infotact_python_project.Consumer.{Consumer, submitted, drain}
use infotact_python_project.Consumer.Drain.{limit, drain_lem}

two_slots : 2 < 2 ^ 32
two_slots = omega arith

some_slots : 0 < 2
some_slots = omega arith

abbrev empty_ring : Ring
empty_ring = new_ring 2 some_slots two_slots

empty_ring-IsValid : IsValid empty_ring
empty_ring-IsValid = new_ring-IsValid 2 some_slots two_slots

-- A SELL of 100 at 185.42, with the identifier 258, at time 7.
abbrev record_bytes : Bytes
record_bytes =
    2 ∷ 1 ∷ 0 ∷ 0 ∷ 0 ∷ 0 ∷ 0 ∷ 0 ∷ 1 ∷ 110 ∷ 72 ∷ 0 ∷ 0 ∷ 0 ∷ 0 ∷ 0 ∷ 0 ∷ 100 ∷ 0 ∷ 0 ∷ 0 ∷ 0 ∷ 0
    ∷ 0 ∷ 0 ∷ 7 ∷ 0 ∷ 0 ∷ 0 ∷ 0 ∷ 0 ∷ 0 ∷ 0 ∷ []

abbrev sample : Processor.Order Cents
sample = record {
  order_id = pos 258;
  side = sell_text;
  price = cents_unpack (110 ∷ 72 ∷ 0 ∷ 0 ∷ 0 ∷ 0 ∷ 0 ∷ 0 ∷ []);
  quantity = pos 100;
  timestamp_ns = pos 7;
}

unpacks : unpack_order cents_format record_bytes ≡ ok sample
unfolding unpack_order decode read_at
unpacks = refl

abbrev consumer : Consumer Cents
consumer = record {
  ring_buffer = (put record_bytes empty_ring).1;
  engine = Engine.init Cents;
  processed_count = 0;
}

waiting : contents consumer.ring_buffer ≡ record_bytes ∷ []
unfolding Fifo.put
waiting =
    let (v, same, e) = put_refines empty_ring empty_ring-IsValid record_bytes refl in
    ap (λ p. p.1) e
    ∙ rw (
      contents_empty empty_ring empty_ring-IsValid
          (ap (λ f. f.count) (new_header 2 some_slots two_slots)),
      ap (λ f. f.capacity) (new_header 2 some_slots two_slots),
    )

drain_lem_example :
    let taken = limit cents_format none (sample ∷ []) in
    let (reply, c) = drain cents_format none consumer in
    (reply ≡ ok (length taken))
    × (c.engine ≡ add_orders ⦃o = cents_format.order⦄ (map submitted taken) (Engine.init Cents))
    × (c.processed_count ≡ 0 + length taken)
    × IsValid c.ring_buffer
    × (contents c.ring_buffer ≡ drop (length taken) (contents consumer.ring_buffer))
drain_lem_example =
    drain_lem cents_format none consumer (sample ∷ [])
      (put_refines empty_ring empty_ring-IsValid record_bytes refl).0
      (ap (map (unpack_order cents_format)) waiting ∙ ap (λ r. r ∷ []) unpacks)

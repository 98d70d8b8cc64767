-- ===== src/Consumer.antt =====
-- src/ipc/consumer.py: `RingBufferConsumer` takes records off the file ring, unpacks them and
-- submits the orders to the matching engine.
pub mod Drain
mod Examples
use infotact_python_project.Prelude.{
  ℕ, zero, suc, ◌+◌, Bool, true, false, if◌then◌else◌, ltb, ◌==◌, Option, none, some, List, [], ◌∷◌,
  Result, ok, err, ℤ, pos, negsuc,
}
use infotact_python_project.Bytes.{Bytes, bytes_eq}
use infotact_python_project.Float.{PriceFormat}
use infotact_python_project.Processor
use infotact_python_project.Processor.{unpack_order, buy_text}
use infotact_python_project.Engine
use infotact_python_project.Engine.{Engine, add_order, buy, sell}
use infotact_python_project.FileRing
use infotact_python_project.FileRing.{Ring, get, unpack_header}

pub data Error : Type 0 where
  ring_error : FileRing.Error → Error
  order_error : Processor.Error → Error

-- The processor of the source is not part of the state: unpacking leaves it alone.
pub record Consumer {ℓ} (P : Type ℓ) : Type ℓ where
  pub ring_buffer : Ring
  pub engine : Engine P
  pub processed_count : ℕ

-- An unpacked number is unsigned.
pub unsigned : ℤ → ℕ
unsigned (pos n) = n
unsigned (negsuc n) = 0

-- The arguments of the call of `add_order`.
unfoldable pub submitted {ℓ} : {P : Type ℓ} → Processor.Order P → Engine.Order P
submitted o = record {
  order_id = unsigned o.order_id;
  side = if bytes_eq o.side buy_text then buy else sell;
  price = o.price;
  quantity = unsigned o.quantity;
  timestamp = unsigned o.timestamp_ns;
}

module _ {ℓ} {P : Type ℓ} (f : PriceFormat P) where
  -- What follows `record = self.ring_buffer.get()`.
  pub process_record :
      Consumer P → Result FileRing.Error (Option Bytes) × Ring → Result Error Bool × Consumer P
  process_record c (err e, ring) = (err (ring_error e), record c { ring_buffer = ring })
  process_record c (ok none, ring) = (ok false, record c { ring_buffer = ring })
  process_record c (ok (some rec), ring) = elim (unpack_order f rec) [
    | err e ↦ (err (order_error e), record c { ring_buffer = ring })
    | ok o ↦ (
      ok true,
      record {
        ring_buffer = ring;
        engine = add_order ⦃o = f.order⦄ (submitted o) c.engine;
        processed_count = c.processed_count + 1;
      },
    )
  ]

  pub process_one : Consumer P → Result Error Bool × Consumer P
  process_one c = process_record c (get c.ring_buffer)

  -- `max_orders is None or processed < max_orders`
  pub goes_on : Option ℕ → ℕ → Bool
  goes_on none processed = true
  goes_on (some max_orders) processed = ltb processed max_orders

  -- The `while` of `drain`, with fuel. Without fuel it gives back what it has.
  pub drain_loop : ℕ → Option ℕ → ℕ → Consumer P → Result Error ℕ × Consumer P
  drain_loop zero max_orders processed c = (ok processed, c)
  drain_loop (suc n) max_orders processed c = elim (goes_on max_orders processed) [
    | false ↦ (ok processed, c)
    | true ↦ elim (process_one c).0 [
      | err e ↦ (err e, (process_one c).1)
      | ok more ↦ elim more [
        | false ↦ (ok processed, (process_one c).1)
        | true ↦ drain_loop n max_orders (suc processed) (process_one c).1
      ]
    ]
  ]

  -- A round takes a record off the ring, so the count of the ring and one more is fuel enough.
  pub drain : Option ℕ → Consumer P → Result Error ℕ × Consumer P
  drain max_orders c = drain_loop (suc (unpack_header c.ring_buffer.map).count) max_orders 0 c

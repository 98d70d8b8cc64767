-- ===== src/Processor/Examples.antt =====
-- The format at concrete orders, with prices that are 64-bit numbers of cents.
use infotact_python_project.Prelude.{
  ℕ, ◌+◌, ◌^◌, List, [], ◌∷◌, map, ℤ, length, ok, err, pos, none, ◌≡◌, refl, arith, ◌⊎◌, inl,
}
use infotact_python_project.Bytes.{Bytes, encode, bytes_eq}
use infotact_python_project.Float.Cents.{Cents, cents_format}
use infotact_python_project.Processor.{
  Order, Request, Processor, create_order, pack_fields, pack_u64, upper, upper_char, pack_order,
  unpack_order, process_order, process_orders, collect, buy_text, order_size, struct_error,
}
use infotact_python_project.Processor.Create.{Accepts, created}
use infotact_python_project.Processor.Batch.{process_orders_lem}
use infotact_python_project.Processor.Format.{
  IsPackable, unpack_order-pack_order, unpack_order-process_order,
}

abbrev request : Request Cents
request = record {
  order_id = pos 258;
  side = b's' ∷ b'e' ∷ b'l' ∷ b'L' ∷ [];
  price = (18542, omega arith);
  quantity = pos 100;
}

abbrev idle : Processor
idle = record { processed_count = 4 }

abbrev record_bytes : Bytes
record_bytes =
    2 ∷ 1 ∷ 0 ∷ 0 ∷ 0 ∷ 0 ∷ 0 ∷ 0 ∷ 1 ∷ 110 ∷ 72 ∷ 0 ∷ 0 ∷ 0 ∷ 0 ∷ 0 ∷ 0 ∷ 100 ∷ 0 ∷ 0 ∷ 0 ∷ 0 ∷ 0
    ∷ 0 ∷ 0 ∷ 7 ∷ 0 ∷ 0 ∷ 0 ∷ 0 ∷ 0 ∷ 0 ∷ 0 ∷ []

request-packed :
    process_order cents_format request (pos 7) idle
    ≡ (ok record_bytes, record { processed_count = 5 })
unfolding process_order create_order pack_order pack_fields pack_u64 encode bytes_eq upper
    upper_char
request-packed = refl

-- An identifier of 64 bits and one is accepted, and does not fit the record.
too_wide :
    process_order cents_format (record request { order_id = pos (2 ^ 64) }) (pos 7) idle
    ≡ (err struct_error, idle)
unfolding process_order create_order pack_order pack_fields pack_u64 encode bytes_eq upper
    upper_char
too_wide = refl

request-Accepts : Accepts cents_format request
unfolding bytes_eq upper upper_char
request-Accepts = record { side = refl; order_id = refl; price = refl; quantity = refl }

abbrev sample : Order Cents
sample = record {
  order_id = pos 258;
  side = buy_text;
  price = (18542, omega arith);
  quantity = pos 100;
  timestamp_ns = pos 7;
}

unpack_order-pack_order_example :
    (IsPackable cents_format sample
      × ((bs : Bytes) × (pack_order cents_format sample idle
            ≡ (ok bs, record { processed_count = 4 + 1 }))
          × (length bs ≡ order_size)
          × (unpack_order cents_format bs ≡ ok sample)))
    ⊎ ((¬ IsPackable cents_format sample)
        × (pack_order cents_format sample idle ≡ (err struct_error, idle)))
unpack_order-pack_order_example = unpack_order-pack_order cents_format sample idle (inl refl)

unpack_order-process_order_example :
    Accepts cents_format request
    × (length record_bytes ≡ order_size)
    × (unpack_order cents_format record_bytes ≡ ok (created cents_format request none (pos 7)))
    × (◌≡◌ {A = ℕ} 5 (4 + 1))
unpack_order-process_order_example =
    unpack_order-process_order cents_format request (pos 7) idle (record { processed_count = 5 })
      record_bytes request-packed

abbrev batch : List (Request Cents × ℤ)
batch = (request, pos 7) ∷ (request, pos 7) ∷ []

batch-packed :
    process_orders cents_format batch idle
    ≡ (ok (record_bytes ∷ record_bytes ∷ []), record { processed_count = 6 })
unfolding process_orders collect process_order create_order pack_order pack_fields pack_u64 encode
    bytes_eq upper upper_char
batch-packed = refl

process_orders_lem_example :
    (map (unpack_order cents_format) (record_bytes ∷ record_bytes ∷ [])
      ≡ map (λ r. ok (created cents_format r.0 none r.1)) batch)
    × (6 ≡ idle.processed_count + length batch)
process_orders_lem_example =
    process_orders_lem cents_format batch idle (record { processed_count = 6 })
      (record_bytes ∷ record_bytes ∷ []) batch-packed

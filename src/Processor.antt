-- ===== src/Processor.antt =====
-- src/data_processing/processor.py: orders are checked, and packed into records of 33 bytes. A text
-- is the list of its code points, ASCII here; a clock reading is an argument.
pub mod Create
pub mod Format
pub mod Batch
mod Examples
use infotact_python_project.Prelude.{
  ℕ, ◌+◌, ◌-◌, ◌^◌, Bool, true, false, not, ◌&&◌, ◌||◌, if◌then◌else◌, ltb, leb, ◌==◌, Option, none,
  some, List, [], ◌∷◌, ◌++◌, map, length, Result, ok, err, ◌>>=◌, ℤ, pos, negsuc, is_negative,
  is_nonpositive,
}
use infotact_python_project.Bytes.{Bytes, encode, decode, read_at, bytes_eq}
use infotact_python_project.Float.{PriceFormat, is_positive}

abbrev pub Text : Type 0
Text = List ℕ

-- The exceptions: the `ValueError`s by their messages, and `struct.error`.
pub data Error : Type 0 where
  bad_side bad_order_id bad_price bad_quantity bad_size struct_error : Error

-- `ORDER_SIZE`
abbrev pub order_size : ℕ
order_size = 33

abbrev pub buy : ℕ
buy = 0

abbrev pub sell : ℕ
sell = 1

abbrev pub buy_text : Text
buy_text = b'B' ∷ b'U' ∷ b'Y' ∷ []

abbrev pub sell_text : Text
sell_text = b'S' ∷ b'E' ∷ b'L' ∷ b'L' ∷ []

pub record Order {ℓ} (P : Type ℓ) : Type ℓ where
  pub order_id : ℤ
  pub side : Text
  pub price : P
  pub quantity : ℤ
  pub timestamp_ns : ℤ

pub record Processor : Type 0 where
  pub processed_count : ℕ

unfoldable pub upper_char : ℕ → ℕ
upper_char c = if leb b'a' c && leb c b'z' then c - 32 else c

unfoldable pub upper : Text → Text
unfolding upper_char
upper = map upper_char

-- `struct.pack("Q", z)`
pub pack_u64 : ℤ → Result Error Bytes
pack_u64 (pos n) = if ltb n (2 ^ 64) then ok (encode 8 n) else err struct_error
pack_u64 (negsuc n) = err struct_error

-- One round of the loop of `process_orders`, before the later ones.
pub collect :
    Result Error Bytes × Processor
    → Result Error (List Bytes) × Processor
    → Result Error (List Bytes) × Processor
collect (err e, p) later = (err e, p)
collect (ok packed, p) (ok packed_orders, q) = (ok (packed ∷ packed_orders), q)
collect (ok packed, p) (err e, q) = (err e, q)

-- What `create_order` takes of a dictionary in `process_orders`.
pub record Request {ℓ} (P : Type ℓ) : Type ℓ where
  pub order_id : ℤ
  pub side : Text
  pub price : P
  pub quantity : ℤ

module _ {ℓ} {P : Type ℓ} (f : PriceFormat P) where
  -- `now` is what `time.perf_counter_ns()` returns, when no timestamp is given.
  pub create_order : Request P → Option ℤ → ℤ → Result Error (Order P)
  create_order r timestamp_ns now =
      if not (bytes_eq side buy_text || bytes_eq side sell_text)
      then err bad_side
      else if is_negative r.order_id
      then err bad_order_id
      else if not (is_positive f r.price)
      then err bad_price
      else if is_nonpositive r.quantity
      then err bad_quantity
      else ok (record {
        order_id = r.order_id;
        side = side;
        price = r.price;
        quantity = r.quantity;
        timestamp_ns = elim timestamp_ns [ none ↦ now | some t ↦ t ];
      })
    where
      side : Text
      side = upper r.side

  -- `struct.pack(ORDER_FORMAT, …)`, field by field.
  pub pack_fields : Order P → Result Error Bytes
  pack_fields o = do
    id_bytes ← pack_u64 o.order_id
    quantity_bytes ← pack_u64 o.quantity
    timestamp_bytes ← pack_u64 o.timestamp_ns
    ok (
        id_bytes
        ++ (encode 1 (if bytes_eq o.side buy_text then buy else sell)
            ++ (f.pack o.price ++ (quantity_bytes ++ timestamp_bytes))))

  -- The counter moves only if the packing does not raise.
  pub pack_order : Order P → Processor → Result Error Bytes × Processor
  pack_order o p = elim (pack_fields o) [
    | ok packed ↦ (ok packed, record p { processed_count = p.processed_count + 1 })
    | err e ↦ (err e, p)
  ]

  unfoldable pub unpack_order : Bytes → Result Error (Order P)
  unpack_order bs =
      if length bs == order_size
      then ok (record {
        order_id = pos (decode (read_at 0 8 bs));
        side = if decode (read_at 8 1 bs) == buy then buy_text else sell_text;
        price = f.unpack (read_at 9 8 bs);
        quantity = pos (decode (read_at 17 8 bs));
        timestamp_ns = pos (decode (read_at 25 8 bs));
      })
      else err bad_size

  pub process_order : Request P → ℤ → Processor → Result Error Bytes × Processor
  process_order r now p = elim (create_order r none now) [
    | ok o ↦ pack_order o p
    | err e ↦ (err e, p)
  ]

  -- Each order has its own clock reading. The first exception leaves the loop.
  pub process_orders : List (Request P × ℤ) → Processor → Result Error (List Bytes) × Processor
  process_orders [] p = (ok [], p)
  process_orders ((r, now) ∷ orders) p =
      collect (process_order r now p) (process_orders orders (process_order r now p).1)

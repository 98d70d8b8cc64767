-- ===== src/SlotBuffer.antt =====
-- src/data_processing/ipc_buffer.py: `RingBuffer`, slots of one order each behind two indices
-- that only grow, `write_index` at byte 0 and `read_index` at byte 8. Writer and reader take
-- turns on the same bytes; a state is the map between two calls. The file is at least a header
-- long.
pub mod Indices
pub mod Refine
pub mod Runs
mod Examples
use infotact_python_project.Prelude.{
  ℕ, suc, ◌+◌, ◌-◌, ◌*◌, ◌/◌, ◌%◌, ◌^◌, Bool, true, false, not, if◌then◌else◌, ltb, leb, ◌==◌,
  Option, none, some, length, replicate, Result, ok, err, ◌>>=◌, ℤ, pos, negsuc,
}
use infotact_python_project.Bytes.{Bytes, encode, decode, read_at, write_at}
use infotact_python_project.Bytes.Slots.{slot}
use infotact_python_project.Processor.{order_size}

-- `ValueError`, `struct.error` and `ZeroDivisionError`.
pub data Error : Type 0 where
  bad_size struct_error zero_division : Error

abbrev pub write_index_offset : ℕ
write_index_offset = 0

abbrev pub read_index_offset : ℕ
read_index_offset = 8

abbrev pub index_size : ℕ
index_size = 8

abbrev pub header_size : ℕ
header_size = 16

pub record Buffer : Type 0 where
  pub num_slots : ℕ
  pub map : Bytes

-- `open_buffer(path, num_slots, create=True)`, which resets the file.
pub create_file : ℕ → Buffer
create_file num_slots = record {
  num_slots = num_slots;
  map = replicate (header_size + order_size * num_slots) 0;
}

-- `open_buffer(path, create=False)` on a file with these bytes.
unfoldable pub attach : Bytes → Buffer
attach file = record { num_slots = (length file - header_size) / order_size; map = file }

unfoldable pub get_write_index : Buffer → ℕ
get_write_index b = decode (read_at write_index_offset index_size b.map)

pub get_read_index : Buffer → ℕ
get_read_index b = decode (read_at read_index_offset index_size b.map)

-- `_set_write_index` and `_set_read_index`, on the bytes.
pub set_index : ℕ → ℕ → Bytes → Result Error Bytes
set_index offset value m =
    if ltb value (2 ^ 64)
    then ok (write_at offset (encode index_size value) m)
    else err struct_error

-- The map after a call that set an index.
pub finish {ℓ} : {A : Type ℓ} → A → Bytes → Result Error Bytes → Buffer → Result Error A × Buffer
finish value before (ok m) b = (ok value, record b { map = m })
finish value before (err e) b = (err e, record b { map = before })

pub write : Bytes → Buffer → Result Error ℕ × Buffer
write packed_order b =
    if not (length packed_order == order_size)
    then (err bad_size, b)
    else if b.num_slots == 0
    then (err zero_division, b)
    else finish write_index stored (set_index write_index_offset (write_index + 1) stored) b
  where
    write_index : ℕ
    write_index = get_write_index b

    stored : Bytes
    stored = write_at (header_size + (write_index % b.num_slots) * order_size) packed_order b.map

pub read : Buffer → Result Error (Option Bytes) × Buffer
read b =
    if leb (get_write_index b) read_index
    then (ok none, b)
    else if b.num_slots == 0
    then (err zero_division, b)
    else finish (some (slot header_size order_size b.map (read_index % b.num_slots))) b.map
        (set_index read_index_offset (read_index + 1) b.map) b
  where
    read_index : ℕ
    read_index = get_read_index b

pub pending_count : Buffer → ℤ
pending_count b =
    if leb (get_read_index b) (get_write_index b)
    then pos (get_write_index b - get_read_index b)
    else negsuc (get_read_index b - suc (get_write_index b))

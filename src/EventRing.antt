-- ===== src/EventRing.antt =====
-- src/ipc/mmap_buffer.py: `MmapRingBuffer`, a ring of records that a slow reader loses: a write
-- into a full ring goes over the oldest record, and readers have sequence numbers of their own.
-- The header is `<8s H I Q Q Q Q I 14s`: magic, version, record size, capacity, head, tail,
-- dropped, flags. The lock makes each call one step, so a state is the map between two calls.
pub mod Layout
pub mod Log
pub mod Writes
pub mod Reads
pub mod Runs
pub mod Stats
mod Examples
use infotact_python_project.Prelude.{
  ℕ, zero, suc, ◌+◌, ◌-◌, ◌*◌, ◌%◌, ◌^◌, min, Bool, true, false, not, ◌&&◌, ◌||◌, if◌then◌else◌,
  ltb, leb, ◌==◌, Option, none, some, List, [], ◌∷◌, ◌++◌, length, replicate, Result, ok, err,
  ◌>>=◌,
}
use infotact_python_project.Bytes.{Bytes, encode, decode, read_at, write_at, bytes_eq}
use infotact_python_project.Bytes.Slots.{slot}

-- `MmapCorruptError`, `MmapInaccessibleError`, `MmapCapacityError`, `ValueError`, `struct.error`
-- and `ZeroDivisionError`.
pub data Error : Type 0 where
  corrupt inaccessible bad_capacity bad_length struct_error zero_division : Error

abbrev pub magic_bytes : Bytes
magic_bytes = b'C' ∷ b'M' ∷ b'M' ∷ b'A' ∷ b'P' ∷ 1 ∷ 0 ∷ 0 ∷ []

abbrev pub header_size : ℕ
header_size = 64

abbrev pub flag_active : ℕ
flag_active = 0

abbrev pub flag_closed : ℕ
flag_closed = 1

-- `MmapHeader`
pub record Header : Type 0 where
  pub magic : Bytes
  pub version : ℕ
  pub record_size : ℕ
  pub capacity : ℕ
  pub head_seq : ℕ
  pub tail_seq : ℕ
  pub dropped_count : ℕ
  pub flags : ℕ

pub record Ring : Type 0 where
  pub capacity : ℕ
  pub record_size : ℕ
  pub is_closed : Bool
  pub local_read_seq : ℕ
  pub map : Bytes

-- `struct.unpack(HEADER_FORMAT, raw)`
pub unpack_header : Bytes → Header
unpack_header m = record {
  magic = read_at 0 8 m;
  version = decode (read_at 8 2 m);
  record_size = decode (read_at 10 4 m);
  capacity = decode (read_at 14 8 m);
  head_seq = decode (read_at 22 8 m);
  tail_seq = decode (read_at 30 8 m);
  dropped_count = decode (read_at 38 8 m);
  flags = decode (read_at 46 4 m);
}

-- `struct.pack("<Q Q Q", head, tail, dropped)`
pub pack_counters : ℕ → ℕ → ℕ → Result Error Bytes
pack_counters head tail dropped =
    if ltb head (2 ^ 64) && (ltb tail (2 ^ 64) && ltb dropped (2 ^ 64))
    then ok (encode 8 head ++ (encode 8 tail ++ encode 8 dropped))
    else err struct_error

-- The header of a new ring.
pub new_header : ℕ → ℕ → Bytes
new_header record_size capacity =
    magic_bytes
    ++ (encode 2 1
        ++ (encode 4 record_size
            ++ (encode 8 capacity
                ++ (encode 8 0
                    ++ (encode 8 0 ++ (encode 8 0 ++ (encode 4 flag_active ++ replicate 14 0)))))))

-- `MmapRingBuffer(path, capacity, record_size, create=True)`
pub create_buffer : ℕ → ℕ → Result Error Ring
create_buffer capacity record_size =
    if capacity == 0 || record_size == 0
    then err bad_capacity
    else if ltb record_size (2 ^ 32) && ltb capacity (2 ^ 64)
    then ok (record {
      capacity = capacity;
      record_size = record_size;
      is_closed = false;
      local_read_seq = 0;
      map =
          write_at 0 (new_header record_size capacity)
            (replicate (header_size + capacity * record_size) 0);
    })
    else err struct_error

-- `MmapRingBuffer(path, create=False)` on a file with these bytes, or on none.
pub attach_buffer : Option Bytes → Result Error Ring
attach_buffer none = err inaccessible
attach_buffer (some m) =
    if ltb (length m) header_size
    then err corrupt
    else if not (bytes_eq h.magic magic_bytes)
    then err corrupt
    else if ltb (length m) (header_size + h.capacity * h.record_size)
    then err corrupt
    else ok (record {
      capacity = h.capacity;
      record_size = h.record_size;
      is_closed = false;
      local_read_seq = h.tail_seq;
      map = m;
    })
  where
    h : Header
    h = unpack_header m

pub read_header : Ring → Result Error Header
read_header r = if r.is_closed then err inaccessible else ok (unpack_header r.map)

-- The part of `write` below the test for room, with the tail and the drops that it came to.
pub store : Bytes → ℕ → ℕ → ℕ → Ring → Result Error Bool × Ring
store rec head tail dropped r =
    if r.capacity == 0
    then (err zero_division, r)
    else elim (pack_counters (head + 1) tail dropped) [
      | err e ↦ (err e, record r { map = stored })
      | ok packed ↦ (ok true, record r { map = write_at 22 packed stored })
    ]
  where
    stored : Bytes
    stored = write_at (header_size + (head % r.capacity) * r.record_size) rec r.map

pub write : Bytes → Bool → Ring → Result Error Bool × Ring
write rec overwrite_if_full r =
    if r.is_closed
    then (err inaccessible, r)
    else if not (length rec == r.record_size)
    then (err bad_length, r)
    else if leb (h.tail_seq + r.capacity) h.head_seq
    then if overwrite_if_full
      then store rec h.head_seq (h.head_seq + 1 - r.capacity) (h.dropped_count + 1) r
      else (ok false, r)
    else store rec h.head_seq h.tail_seq h.dropped_count r
  where
    h : Header
    h = unpack_header r.map

-- The sequence number that is read: past the records that were gone over.
pub caught_up : ℕ → ℕ → ℕ → ℕ
caught_up head capacity seq = if ltb capacity (head - seq) then head - capacity else seq

-- What a reader without a number of its own leaves: its place, and the tail if it is ahead of it.
pub advance : ℕ → ℕ → Ring → Ring
advance next_seq tail r = record r {
  local_read_seq = next_seq;
  map = if ltb tail next_seq then write_at 30 (encode 8 next_seq) r.map else r.map;
}

-- A sequence number is at most that of the head here, so it fits its 8 bytes.
pub read : Option ℕ → Ring → Result Error (Option Bytes × ℕ) × Ring
read consumer_seq r =
    if r.is_closed
    then (err inaccessible, r)
    else if leb h.head_seq seq
    then (ok (none, seq), r)
    else if r.capacity == 0
    then (err zero_division, r)
    else (
      ok (some (slot header_size r.record_size r.map (place % r.capacity)), place + 1),
      elim consumer_seq [ none ↦ advance (place + 1) h.tail_seq r | some s ↦ r ],
    )
  where
    h : Header
    h = unpack_header r.map

    seq : ℕ
    seq = elim consumer_seq [ none ↦ r.local_read_seq | some s ↦ s ]

    place : ℕ
    place = caught_up h.head_seq r.capacity seq

-- The `for` of `read_batch`.
pub read_slots : ℕ → ℕ → Ring → List Bytes
read_slots zero curr_seq r = []
read_slots (suc count) curr_seq r =
    slot header_size r.record_size r.map (curr_seq % r.capacity) ∷ read_slots count (curr_seq + 1) r

-- The place of a reader in `read_batch`, after the records that it read.
pub finish_batch : Option ℕ → ℕ → ℕ → Ring → Ring
finish_batch none curr_seq tail r = advance curr_seq tail r
finish_batch (some s) curr_seq tail r = r

pub read_batch : ℕ → Option ℕ → Ring → Result Error (List Bytes × ℕ) × Ring
read_batch max_records consumer_seq r =
    if r.is_closed
    then (err inaccessible, r)
    else if leb h.head_seq seq
    then (ok ([], seq), r)
    else if r.capacity == 0 && ltb 0 count
    then (err zero_division, r)
    else (
      ok (read_slots count place r, place + count),
      finish_batch consumer_seq (place + count) h.tail_seq r,
    )
  where
    h : Header
    h = unpack_header r.map

    seq : ℕ
    seq = elim consumer_seq [ none ↦ r.local_read_seq | some s ↦ s ]

    place : ℕ
    place = caught_up h.head_seq r.capacity seq

    count : ℕ
    count = min max_records (h.head_seq - place)

-- What a closing writes; the map is not used again through this object.
pub close : Ring → Ring
close r =
    if r.is_closed
    then r
    else record r { is_closed = true; map = write_at 46 (encode 4 flag_closed) r.map }

-- ===== src/FileRing.antt =====
-- src/ipc/ring_buffer.py: `MmapRingBuffer`, a bounded ring of 33-byte records in a mapped file.
-- The header is `<8sIIII`: magic, capacity, read index, write index, count. The file lock makes
-- each call one step, so a state is the map between two calls. The file that `open` finds is an
-- argument.
pub mod Layout
pub mod Invariant
pub mod Fifo
pub mod Refine
pub mod Opening
pub mod Accepted
mod Examples
use infotact_python_project.Prelude.{
  ℕ, suc, ◌+◌, ◌-◌, ◌*◌, ◌%◌, ◌^◌, Bool, true, false, not, ◌&&◌, ◌||◌, if◌then◌else◌, ltb, leb,
  ◌==◌, Option, none, some, List, [], ◌∷◌, ◌++◌, length, replicate, Result, ok, err, ◌>>=◌,
}
use infotact_python_project.Bytes.{Bytes, encode, decode, read_at, write_at, bytes_eq}
use infotact_python_project.Bytes.Slots.{slot}

-- The `ValueError`s by their messages, `BufferError`, `struct.error` and `FileNotFoundError`.
pub data Error : Type 0 where
  bad_capacity invalid_file invalid_header uninitialized corrupt closed_ring bad_record : Error
  buffer_full struct_error file_not_found : Error

-- "CHRONOS1"
abbrev pub magic : Bytes
magic = b'C' ∷ b'H' ∷ b'R' ∷ b'O' ∷ b'N' ∷ b'O' ∷ b'S' ∷ b'1' ∷ []

-- `HEADER.size`
abbrev pub header_size : ℕ
header_size = 24

abbrev pub record_size : ℕ
record_size = 33

-- What the header's five fields are.
pub record Header : Type 0 where
  pub signature : Bytes
  pub capacity : ℕ
  pub read_idx : ℕ
  pub write_idx : ℕ
  pub count : ℕ

pub record Ring : Type 0 where
  pub capacity : ℕ
  pub closed : Bool
  pub map : Bytes

-- `HEADER.unpack(self._map[:HEADER_SIZE])`
pub unpack_header : Bytes → Header
unpack_header m = record {
  signature = read_at 0 8 m;
  capacity = decode (read_at 8 4 m);
  read_idx = decode (read_at 12 4 m);
  write_idx = decode (read_at 16 4 m);
  count = decode (read_at 20 4 m);
}

-- The bytes of `HEADER.pack(MAGIC, …)`.
pub header_bytes : ℕ → ℕ → ℕ → ℕ → Bytes
header_bytes capacity read_idx write_idx count =
    magic ++ (encode 4 capacity ++ (encode 4 read_idx ++ (encode 4 write_idx ++ encode 4 count)))

pub pack_header : ℕ → ℕ → ℕ → ℕ → Result Error Bytes
pack_header capacity read_idx write_idx count =
    if ltb capacity (2 ^ 32)
      && ltb read_idx (2 ^ 32)
      && ltb write_idx (2 ^ 32)
      && ltb count (2 ^ 32)
    then ok (header_bytes capacity read_idx write_idx count)
    else err struct_error

-- Returns what the call returns, beside the ring after it.
pub put : Bytes → Ring → Result Error (Unit {0}) × Ring
put rec r =
    if not (length rec == record_size)
    then (err bad_record, r)
    else if r.closed
    then (err closed_ring, r)
    else if h.count == h.capacity
    then (err buffer_full, r)
    else elim (pack_header h.capacity h.read_idx ((h.write_idx + 1) % h.capacity) (h.count + 1)) [
      | err e ↦ (err e, record r { map = stored })
      | ok header ↦ (ok tt, record r { map = write_at 0 header stored })
    ]
  where
    h : Header
    h = unpack_header r.map

    stored : Bytes
    stored = write_at (header_size + h.write_idx * record_size) rec r.map

pub get : Ring → Result Error (Option Bytes) × Ring
get r =
    if r.closed
    then (err closed_ring, r)
    else if h.count == 0
    then (ok none, r)
    else elim (pack_header h.capacity ((h.read_idx + 1) % h.capacity) h.write_idx (h.count - 1)) [
      | err e ↦ (err e, r)
      | ok header ↦ (
        ok (some (slot header_size record_size r.map h.read_idx)),
        record r { map = write_at 0 header r.map },
      )
    ]
  where
    h : Header
    h = unpack_header r.map

-- `__len__`
pub len : Ring → Result Error ℕ
len r = if r.closed then err closed_ring else ok (unpack_header r.map).count

pub close : Ring → Ring
close r = record r { closed = true }

-- The checks of the constructor on the header of the mapped file. The source closes the map inside
-- the lock before it raises here and in `initialize`; what escapes is a `ValueError` all the same.
pub bad_metadata : Bytes → Header → Bool
bad_metadata m h =
    not (bytes_eq h.signature magic)
    || (h.capacity == 0
        || (not (length m == header_size + h.capacity * record_size)
            || (leb h.capacity h.read_idx
                || (leb h.capacity h.write_idx || ltb h.capacity h.count))))

pub check_metadata : Bytes → Result Error Ring
check_metadata m =
    if bad_metadata m (unpack_header m)
    then err corrupt
    else ok (record { capacity = (unpack_header m).capacity; closed = false; map = m })

-- A map without the magic is zeroed and given a fresh header, if the caller creates.
pub initialize : ℕ → Bool → Bytes → Result Error Bytes
initialize capacity create m =
    if bytes_eq (read_at 0 8 m) magic
    then ok m
    else if not create
    then err uninitialized
    else do header ← pack_header capacity 0 0 0; ok (write_at 0 header (replicate (length m) 0))

-- The file that is mapped: `none` is no file. A created file is as large as the ring.
pub open_file : ℕ → Bool → Option Bytes → Result Error Bytes
open_file capacity true none = ok (replicate (header_size + capacity * record_size) 0)
open_file capacity true (some []) = ok (replicate (header_size + capacity * record_size) 0)
open_file capacity true (some (b ∷ bs)) =
    if ltb (length (b ∷ bs)) header_size then err invalid_file else ok (b ∷ bs)
open_file capacity false none = err file_not_found
open_file capacity false (some bs) =
    if ltb (length bs) header_size then err invalid_header else ok bs

-- `MmapRingBuffer(path, capacity, create=create)`
pub open_ring : ℕ → Bool → Option Bytes → Result Error Ring
open_ring capacity create file =
    if capacity == 0
    then err bad_capacity
    else do m ← open_file capacity create file; m' ← initialize capacity create m; check_metadata m'

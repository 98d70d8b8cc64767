-- ===== src/SlotBuffer/Runs.antt =====
-- The writer and the reader of src/data_processing/ipc_buffer.py together: any interleaving of
-- their calls, from the new file on.
use infotact_python_project.Prelude.{
  ℕ, zero, suc, ◌+◌, ◌*◌, ◌%◌, ◌^◌, ◌<◌, Option, List, [], ◌∷◌, ◌++◌, length, ok, err, Result, take,
  sym, subst, ◌≡◌, refl, ap, ap₂, ◌∙◌, arith, replicate, length-replicate,
}
use infotact_python_project.Bytes.{Bytes, decode, read_at}
use infotact_python_project.Bytes.Slots.{slot}
use infotact_python_project.Window.{window}
use infotact_python_project.Processor.{order_size}
use infotact_python_project.SlotBuffer.{
  Error, Buffer, header_size, create_file, get_write_index, get_read_index, write, read,
}
use infotact_python_project.SlotBuffer.Indices.{IsValid}
use infotact_python_project.SlotBuffer.Refine.{
  contents, length-contents, write_refines, read_refines, oldest, later,
}

pub data Call : Type 0 where
  writes : Bytes → Call
  reads : Call

-- An exception ends the reader.
abbrev pub reply : Result Error (Option Bytes) → List (Option Bytes) → List (Option Bytes)
reply (ok r) rest = r ∷ rest
reply (err e) rest = []

-- What the reader gets; the replies of the writer are not looked at.
unfoldable pub received : List Call → Buffer → List (Option Bytes)
received [] b = []
received (writes x ∷ calls) b = received calls (write x b).1
received (reads ∷ calls) b = reply (read b).0 (received calls (read b).1)

-- What a queue gives.
unfoldable pub queued : List Call → List Bytes → List (Option Bytes)
queued [] q = []
queued (writes x ∷ calls) q = queued calls (q ++ (x ∷ []))
queued (reads ∷ calls) q = oldest q ∷ queued calls (later q)

-- No write while `slots` records wait, and every record the size of an order.
abbrev pub InRoom : ℕ → List Call → List Bytes → Type 0
InRoom slots [] q = Unit
InRoom slots (writes x ∷ calls) q =
    (length x ≡ order_size) × (length q < slots) × InRoom slots calls (q ++ (x ∷ []))
InRoom slots (reads ∷ calls) q = InRoom slots calls (later q)

-- From a buffer on which every write finds a free slot, the reader receives, in any interleaving
-- with the writer, what a queue gives. The indices stay below 2^64.
pub received-queued :
    (calls : List Call) (b : Buffer)
    → IsValid b
    → get_write_index b + length calls < 2 ^ 64
    → InRoom b.num_slots calls (contents b)
    → received calls b ≡ queued calls (contents b)
unfolding received queued
received-queued [] b v h room = refl
received-queued (writes x ∷ calls) b v h (l, free, room) =
    let (s, v', same, index, e) =
      write_refines b v x l (omega arith) (omega (arith, length-contents b)) in
    received-queued calls (write x b).1 v' (omega (arith, index)) (rw (same, e) room)
    ∙ ap (queued calls) e
received-queued (reads ∷ calls) b v h room =
    let (v', same, index, s, e) = read_refines b v in
    ap₂ reply s (
      received-queued calls (read b).1 v' (omega (arith, index)) (rw (same, e) room)
      ∙ ap (queued calls) e)

decode-take : (n m : ℕ) → decode (take n (replicate m 0)) ≡ 0
unfolding decode
decode-take zero m = refl
decode-take (suc n) zero = refl
decode-take (suc n) (suc m) = omega (arith, decode-take n m)

decode-read_at : (i n m : ℕ) → decode (read_at i n (replicate m 0)) ≡ 0
unfolding read_at decode
decode-read_at zero n m = decode-take n m
decode-read_at (suc i) n zero = refl
decode-read_at (suc i) n (suc m) = decode-read_at i n m

pub new_write_index : (slots : ℕ) → get_write_index (create_file slots) ≡ 0
unfolding create_file get_write_index
new_write_index slots = decode-read_at 0 8 (header_size + order_size * slots)

pub num_slots-create_file : (slots : ℕ) → (create_file slots).num_slots ≡ slots
unfolding create_file
num_slots-create_file slots = refl

-- The new file is an empty buffer.
pub create_file_lem :
    (slots : ℕ) → 0 < slots → IsValid (create_file slots) × (contents (create_file slots) ≡ [])
unfolding create_file contents window get_write_index get_read_index
create_file_lem slots h = (
  record {
    length_map = length-replicate (header_size + order_size * slots) 0 ∙ omega arith;
    some_slots = h;
    behind = omega (arith, new_write, new_read);
    small = omega (arith, new_write);
  },
  ap
      (window (slot header_size order_size (create_file slots).map) slots
        (get_read_index (create_file slots) % slots))
      {y = 0} (omega (arith, new_write, new_read)),
)
  where
    new_write : get_write_index (create_file slots) ≡ 0
    new_write = decode-read_at 0 8 (header_size + order_size * slots)

    new_read : get_read_index (create_file slots) ≡ 0
    new_read = decode-read_at 8 8 (header_size + order_size * slots)

-- From the new file on, in any interleaving of the writer and the reader in which every write finds
-- a free slot, the reader receives what a queue gives. There are fewer than 2^64 calls.
pub received-queued_new :
    (slots : ℕ) (calls : List Call)
    → 0 < slots
    → length calls < 2 ^ 64
    → InRoom slots calls []
    → received calls (create_file slots) ≡ queued calls []
unfolding create_file
received-queued_new slots calls h few room =
    let (v, e) = create_file_lem slots h in
    received-queued calls (create_file slots) v (omega (arith, new_write_index slots))
      (subst (InRoom slots calls) (sym e) room)
    ∙ ap (queued calls) e

-- ===== src/SlotBuffer/Indices.antt =====
-- The calls of src/data_processing/ipc_buffer.py one by one: what they return, and the two indices
-- after them.
use infotact_python_project.Prelude.{
  ◌+◌, ◌*◌, ◌%◌, ◌^◌, ◌≤◌, ◌<◌, none, some, length, ok, ◌≡◌, sym, ap, ◌∙◌, arith,
}
use infotact_python_project.Bytes.{Bytes, encode, decode, write_at}
use infotact_python_project.Bytes.Ints.{length-encode, decode-encode}
use infotact_python_project.Bytes.Slices.{
  length-write_at, read_at-write_at, read_at_before, read_at_after,
}
use infotact_python_project.Bytes.Slots.{slot}
use infotact_python_project.Processor.{order_size}
use infotact_python_project.SlotBuffer.{
  Buffer, header_size, get_write_index, get_read_index, set_index, finish, write, read,
}

-- A map as long as its slots need, and a reader that is not ahead of the writer.
pub record IsValid (b : Buffer) : Type 0 where
  pub length_map : length b.map ≡ header_size + b.num_slots * order_size
  pub some_slots : 0 < b.num_slots
  pub behind : get_read_index b ≤ get_write_index b
  pub small : get_write_index b < 2 ^ 64

module _ (b : Buffer) (v : IsValid b) where
  abbrev pub written : Bytes → Buffer
  written x = record b {
    map =
        write_at 0 (encode 8 (get_write_index b + 1))
          (write_at (header_size + (get_write_index b % b.num_slots) * order_size) x b.map);
  }

  abbrev pub consumed : Buffer
  consumed = record b { map = write_at 8 (encode 8 (get_read_index b + 1)) b.map }

  pub write_lem :
      (x : Bytes)
      → length x ≡ order_size
      → get_write_index b + 1 < 2 ^ 64
      → write x b ≡ (ok (get_write_index b), written x)
  unfolding write set_index finish
  write_lem x l h = ground (arith, v.some_slots)

  pub read_at_end : get_write_index b ≡ get_read_index b → read b ≡ (ok none, b)
  unfolding read
  read_at_end e = ground (arith, e)

  pub read_next :
      get_read_index b < get_write_index b
      → read b
        ≡ (ok (some (slot header_size order_size b.map (get_read_index b % b.num_slots))), consumed)
  unfolding read set_index finish
  read_next h = ground (arith, v.some_slots, v.small)

  pub write_index-written :
      (x : Bytes)
      → get_write_index b + 1 < 2 ^ 64
      → get_write_index (written x) ≡ get_write_index b + 1
  unfolding get_write_index
  write_index-written x h =
      ap decode (
        read_at-write_at 0 8 (encode 8 (get_write_index b + 1)) _
          (sym (length-encode 8 (get_write_index b + 1)))
          (omega (
            arith,
            v.length_map,
            length-write_at (header_size + (get_write_index b % b.num_slots) * order_size) x b.map,
          )))
      ∙ decode-encode 8 (get_write_index b + 1) h

  pub read_index-written : (x : Bytes) → get_read_index (written x) ≡ get_read_index b
  unfolding get_read_index
  read_index-written x = ap decode (
      read_at_after 8 8 0 (encode 8 (get_write_index b + 1)) _
        (omega (arith, length-encode 8 (get_write_index b + 1)))
      ∙ read_at_before 8 8 (header_size + (get_write_index b % b.num_slots) * order_size) x b.map
          (omega arith))

  pub write_index-consumed : get_write_index consumed ≡ get_write_index b
  unfolding get_write_index
  write_index-consumed =
      ap decode (read_at_before 0 8 8 (encode 8 (get_read_index b + 1)) b.map (omega arith))

  pub read_index-consumed :
      get_read_index b < get_write_index b → get_read_index consumed ≡ get_read_index b + 1
  unfolding get_read_index
  read_index-consumed h =
      ap decode (
        read_at-write_at 8 8 (encode 8 (get_read_index b + 1)) b.map
          (sym (length-encode 8 (get_read_index b + 1))) (omega (arith, v.length_map)))
      ∙ decode-encode 8 (get_read_index b + 1) (omega (arith, v.small, h))

  pub written-IsValid : (x : Bytes) → get_write_index b + 1 < 2 ^ 64 → IsValid (written x)
  written-IsValid x h = record {
    length_map =
        length-write_at 0 _ _
        ∙ length-write_at (header_size + (get_write_index b % b.num_slots) * order_size) x b.map
        ∙ v.length_map;
    some_slots = v.some_slots;
    behind = rw (read_index-written x, write_index-written x h) (omega (arith, v.behind));
    small = rw (write_index-written x h) h;
  }

  pub consumed-IsValid : get_read_index b < get_write_index b → IsValid consumed
  consumed-IsValid h = record {
    length_map = length-write_at 8 _ b.map ∙ v.length_map;
    some_slots = v.some_slots;
    behind = rw (read_index-consumed h, write_index-consumed) (omega (arith, h));
    small = rw write_index-consumed v.small;
  }

-- ===== src/FileRing/Invariant.antt =====
-- The well-formed ring of src/ipc/ring_buffer.py, and the calls on it one by one.
use native.Mathlib.Nat.{mod-lt, mod-add-mod}
use infotact_python_project.Prelude.{
  ℕ, ◌+◌, ◌-◌, ◌*◌, ◌%◌, ◌^◌, ◌≤◌, ◌<◌, false, none, some, length, ok, err, ◌≡◌, sym, ap, ◌∙◌,
  arith,
}
use infotact_python_project.Bytes.{Bytes, write_at}
use infotact_python_project.Bytes.Slices.{length-write_at}
use infotact_python_project.Bytes.Slots.{slot}
use infotact_python_project.FileRing.{
  Ring, Header, magic, header_size, record_size, unpack_header, header_bytes, put, get, buffer_full,
}
use infotact_python_project.FileRing.Layout.{pack_header_fits, unpack-write_header}

abbrev pub header : Ring → Header
header r = unpack_header r.map

-- An open ring whose header fits its map; the write index is as far behind the read index as there
-- are records.
pub record IsValid (r : Ring) : Type 0 where
  pub opened : r.closed ≡ false
  pub signature : (header r).signature ≡ magic
  pub same_capacity : r.capacity ≡ (header r).capacity
  pub size : length r.map ≡ header_size + (header r).capacity * record_size
  pub some_slots : 0 < (header r).capacity
  pub small : (header r).capacity < 2 ^ 32
  pub read_in : (header r).read_idx < (header r).capacity
  pub count_in : (header r).count ≤ (header r).capacity
  pub behind : (header r).write_idx ≡ ((header r).read_idx + (header r).count) % (header r).capacity

module _ (r : Ring) (v : IsValid r) where
  pub write_in : (header r).write_idx < (header r).capacity
  write_in = omega (arith, v.behind, mod-lt ((header r).read_idx + (header r).count) v.some_slots)

  pub next_in : (i : ℕ) → (i + 1) % (header r).capacity < (header r).capacity
  next_in i = mod-lt (i + 1) v.some_slots

  next_small : (i : ℕ) → (i + 1) % (header r).capacity < 2 ^ 32
  next_small i = omega (arith, next_in i, v.small)

  -- The map after a record was stored and the header moved on.
  abbrev pub put_map : Bytes → Bytes
  put_map rec =
      write_at 0
        (header_bytes (header r).capacity (header r).read_idx
          (((header r).write_idx + 1) % (header r).capacity) ((header r).count + 1))
        (write_at (header_size + (header r).write_idx * record_size) rec r.map)

  abbrev pub get_head : Bytes
  get_head =
      header_bytes (header r).capacity (((header r).read_idx + 1) % (header r).capacity)
        (header r).write_idx ((header r).count - 1)

  abbrev pub get_map : Bytes
  get_map = write_at 0 get_head r.map

  pub put_full :
      (rec : Bytes)
      → length rec ≡ record_size
      → (header r).count ≡ (header r).capacity
      → put rec r ≡ (err buffer_full, r)
  unfolding put
  put_full rec l full = ground (arith, v.opened)

  pub put_room :
      (rec : Bytes)
      → length rec ≡ record_size
      → (header r).count < (header r).capacity
      → put rec r ≡ (ok tt, record r { map = put_map rec })
  unfolding put
  put_room rec l room = ground (
    arith,
    v.opened,
    pack_header_fits (header r).capacity (header r).read_idx
        (((header r).write_idx + 1) % (header r).capacity) ((header r).count + 1) v.small
        (omega (arith, v.read_in, v.small)) (next_small (header r).write_idx)
        (omega (arith, v.small)),
  )

  pub get_drained : (header r).count ≡ 0 → get r ≡ (ok none, r)
  unfolding get
  get_drained e = ground (arith, v.opened)

  pub get_waiting :
      0 < (header r).count
      → get r ≡ (
        ok (some (slot header_size record_size r.map (header r).read_idx)),
        record r { map = get_map },
      )
  unfolding get
  get_waiting more = ground (
    arith,
    v.opened,
    pack_header_fits (header r).capacity (((header r).read_idx + 1) % (header r).capacity)
        (header r).write_idx ((header r).count - 1) v.small (next_small (header r).read_idx)
        (omega (arith, write_in, v.small)) (omega (arith, v.small, v.count_in)),
  )

  pub put_header :
      (rec : Bytes)
      → (header r).count < (header r).capacity
      → unpack_header (put_map rec) ≡ record {
        signature = magic;
        capacity = (header r).capacity;
        read_idx = (header r).read_idx;
        write_idx = ((header r).write_idx + 1) % (header r).capacity;
        count = (header r).count + 1;
      }
  put_header rec room =
      unpack-write_header (header r).capacity (header r).read_idx
        (((header r).write_idx + 1) % (header r).capacity) ((header r).count + 1) _
        (omega (
          arith,
          v.size,
          length-write_at (header_size + (header r).write_idx * record_size) rec r.map,
        ))
        v.small (omega (arith, v.read_in, v.small)) (next_small (header r).write_idx)
        (omega (arith, v.small))

  pub get_header :
      0 < (header r).count
      → unpack_header get_map ≡ record {
        signature = magic;
        capacity = (header r).capacity;
        read_idx = ((header r).read_idx + 1) % (header r).capacity;
        write_idx = (header r).write_idx;
        count = (header r).count - 1;
      }
  get_header more =
      unpack-write_header (header r).capacity (((header r).read_idx + 1) % (header r).capacity)
        (header r).write_idx ((header r).count - 1) r.map (omega (arith, v.size)) v.small
        (next_small (header r).read_idx) (omega (arith, write_in, v.small))
        (omega (arith, v.small, v.count_in))

  -- A record that is stored keeps the ring well formed.
  pub put-IsValid :
      (rec : Bytes)
      → (header r).count < (header r).capacity
      → IsValid (record r { map = put_map rec })
  put-IsValid rec room = record {
    opened = v.opened;
    signature = rw (put_header rec room);
    same_capacity = rw (put_header rec room) v.same_capacity;
    size = rw (put_header rec room) (
        length-write_at 0 _ _
        ∙ length-write_at (header_size + (header r).write_idx * record_size) rec r.map
        ∙ v.size);
    some_slots = rw (put_header rec room) v.some_slots;
    small = rw (put_header rec room) v.small;
    read_in = rw (put_header rec room) v.read_in;
    count_in = rw (put_header rec room) (omega arith);
    behind = rw (put_header rec room) (
        ap (λ i. (i + 1) % (header r).capacity) v.behind
        ∙ mod-add-mod ((header r).read_idx + (header r).count) (header r).capacity 1
        ∙ ap (λ i. i % (header r).capacity) (omega arith));
  }

  pub get-IsValid : 0 < (header r).count → IsValid (record r { map = get_map })
  get-IsValid more = record {
    opened = v.opened;
    signature = rw (get_header more);
    same_capacity = rw (get_header more) v.same_capacity;
    size = rw (get_header more) (length-write_at 0 _ r.map ∙ v.size);
    some_slots = rw (get_header more) v.some_slots;
    small = rw (get_header more) v.small;
    read_in = rw (get_header more) (next_in (header r).read_idx);
    count_in = rw (get_header more) (omega (arith, v.count_in));
    behind = rw (get_header more) (
        v.behind
        ∙ ap (λ i. i % (header r).capacity) (omega arith)
        ∙ sym (mod-add-mod ((header r).read_idx + 1) (header r).capacity ((header r).count - 1)));
  }

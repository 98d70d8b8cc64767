-- ===== src/FileRing/Opening.antt =====
-- The constructor of src/ipc/ring_buffer.py: a fresh file, and a file left by an earlier process,
-- which passes the checks.
use native.Mathlib.Nat.{mod-eq_of_lt}
use infotact_python_project.Prelude.{
  ℕ, zero, suc, ◌+◌, ◌*◌, ◌^◌, ◌≤◌, ◌<◌, Bool, true, false, ◌==◌, none, some, [], ◌∷◌, length,
  length-replicate, replicate, ok, ◌≡◌, refl, sym, ap, ◌∙◌, arith,
}
use infotact_python_project.Bytes.{Bytes, bytes_eq, read_at, write_at}
use infotact_python_project.Bytes.Slices.{bytes_eq_refl, length-write_at}
use infotact_python_project.FileRing.{
  Ring, magic, header_size, record_size, unpack_header, header_bytes, open_ring, open_file,
  initialize, check_metadata, bad_metadata, Header,
}
use infotact_python_project.FileRing.Layout.{pack_header_fits, unpack-write_header}
use infotact_python_project.FileRing.Invariant.{IsValid, header, write_in}
use infotact_python_project.FileRing.Refine.{contents, contents_empty}

-- The header passes the checks of the constructor.
pub record Passes (m : Bytes) (h : Header) : Type 0 where
  pub signature : h.signature ≡ magic
  pub some_slots : 0 < h.capacity
  pub size : length m ≡ header_size + h.capacity * record_size
  pub read_in : h.read_idx < h.capacity
  pub write_in : h.write_idx < h.capacity
  pub count_in : h.count ≤ h.capacity

Passes→good : (m : Bytes) (h : Header) → Passes m h → bad_metadata m h ≡ false
unfolding bad_metadata
Passes→good m h p =
    let same : bytes_eq h.signature magic ≡ true = rw p.signature (bytes_eq_refl magic) in
    rw same (ground (arith, p.some_slots, p.size, p.read_in, p.write_in, p.count_in))

check_metadata-Passes :
    (m : Bytes)
    → Passes m (unpack_header m)
    → check_metadata m
      ≡ ok (record { capacity = (unpack_header m).capacity; closed = false; map = m })
unfolding check_metadata
check_metadata-Passes m p = rw (Passes→good m (unpack_header m) p)

open_file_found :
    (capacity : ℕ) (create : Bool) (bs : Bytes)
    → header_size ≤ length bs
    → open_file capacity create (some bs) ≡ ok bs
unfolding open_file
open_file_found capacity create [] h = absurd (omega arith)
open_file_found capacity true (b ∷ bs) h = ground arith
open_file_found capacity false (b ∷ bs) h = ground arith

initialize_found :
    (capacity : ℕ) (create : Bool) (m : Bytes)
    → (unpack_header m).signature ≡ magic
    → initialize capacity create m ≡ ok m
unfolding initialize unpack_header
initialize_found capacity create m h =
    let same : bytes_eq (read_at 0 8 m) magic ≡ true = rw h (bytes_eq_refl magic) in rw same

-- A file of zero bytes does not begin with the magic.
pub zeros-ne-magic : (n : ℕ) → 0 < n → bytes_eq (read_at 0 8 (replicate n 0)) magic ≡ false
unfolding bytes_eq read_at
zeros-ne-magic zero h = absurd (omega arith)
zeros-ne-magic (suc n) h = refl

module _ (capacity : ℕ) (some_slots : 0 < capacity) (small : capacity < 2 ^ 32) where
  abbrev pub zeros : Bytes
  zeros = replicate (header_size + capacity * record_size) 0

  abbrev pub new_map : Bytes
  new_map = write_at 0 (header_bytes capacity 0 0 0) zeros

  initialize_new : initialize capacity true zeros ≡ ok new_map
  unfolding initialize
  initialize_new =
      rw
        (
          zeros-ne-magic (header_size + capacity * record_size) (omega arith),
          pack_header_fits capacity 0 0 0 small (omega arith) (omega arith) (omega arith),
        )
        (ap (λ n. ok (write_at 0 (header_bytes capacity 0 0 0) (replicate n 0)))
          (length-replicate (header_size + capacity * record_size) 0))

  abbrev pub new_ring : Ring
  new_ring = record { capacity = capacity; closed = false; map = new_map }

  pub new_header :
      header new_ring
      ≡ record { signature = magic; capacity = capacity; read_idx = 0; write_idx = 0; count = 0 }
  new_header =
      unpack-write_header capacity 0 0 0 zeros
        (omega (arith, length-replicate {A = ℕ} (header_size + capacity * record_size) 0)) small
        (omega arith) (omega arith) (omega arith)

  length-new_map : length new_map ≡ header_size + capacity * record_size
  length-new_map =
      length-write_at 0 _ zeros ∙ length-replicate (header_size + capacity * record_size) 0

  pub new_ring-IsValid : IsValid new_ring
  new_ring-IsValid = record {
    opened = refl;
    signature = rw new_header;
    same_capacity = rw new_header;
    size = rw new_header length-new_map;
    some_slots = rw new_header some_slots;
    small = rw new_header small;
    read_in = rw new_header some_slots;
    count_in = rw new_header (omega arith);
    behind = rw new_header (sym (mod-eq_of_lt some_slots));
  }

pub new_ring_empty :
    (capacity : ℕ) (k : 0 < capacity) (small : capacity < 2 ^ 32)
    → contents (new_ring capacity k small) ≡ []
new_ring_empty capacity k small =
    contents_empty (new_ring capacity k small) (new_ring-IsValid capacity k small)
      (ap (λ f. f.count) (new_header capacity k small))

-- A new file is an empty ring of the capacity that was asked for.
pub open_ring_new :
    (capacity : ℕ)
    → 0 < capacity
    → capacity < 2 ^ 32
    → (r : Ring) × (open_ring capacity true none ≡ ok r)
      × IsValid r
      × (r.capacity ≡ capacity)
      × (contents r ≡ [])
unfolding open_ring open_file
open_ring_new capacity h k =
    (new_ring capacity h k, opens, new_ring-IsValid capacity h k, refl, new_ring_empty capacity h k)
  where
    v : IsValid (new_ring capacity h k)
    v = new_ring-IsValid capacity h k

    opens : open_ring capacity true none ≡ ok (new_ring capacity h k)
    opens =
        let some_slots : (capacity == 0) ≡ false = ground arith in
        rw
          (
            some_slots,
            initialize_new capacity h k,
            check_metadata-Passes (new_map capacity h k) (record {
              signature = v.signature;
              some_slots = v.some_slots;
              size = v.size;
              read_in = v.read_in;
              write_in = write_in (new_ring capacity h k) v;
              count_in = v.count_in;
            }),
          )
          (ap
            (λ f. ok (record { capacity = f.capacity; closed = false; map = new_map capacity h k }))
            (new_header capacity h k))

-- A process that opens the file of a well-formed ring, asking for any capacity but 0 and whether
-- it creates or not, has that ring: nothing that was put is lost at a restart.
pub open_ring_again :
    (capacity : ℕ) (create : Bool) (r : Ring)
    → 0 < capacity
    → IsValid r
    → open_ring capacity create (some r.map) ≡ ok r
unfolding open_ring
open_ring_again capacity create r h v =
    let some_slots : (capacity == 0) ≡ false = ground arith in
    rw
      (
        some_slots,
        open_file_found capacity create r.map (omega (arith, v.size)),
        initialize_found capacity create r.map v.signature,
        check_metadata-Passes r.map (record {
          signature = v.signature;
          some_slots = v.some_slots;
          size = v.size;
          read_in = v.read_in;
          write_in = write_in r v;
          count_in = v.count_in;
        }),
      )
      (ap ok
        (λ i. record { capacity = sym v.same_capacity i; closed = sym v.opened i; map = r.map }))

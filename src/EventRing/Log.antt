-- ===== src/EventRing/Log.antt =====
-- The ring of src/ipc/mmap_buffer.py with one writer and its primary reader, which has no sequence
-- number of its own: a queue that drops its oldest record when it is full, and counts the drops.
use native.Mathlib.Nat.{mod-lt, mod-add-mod}
use infotact_python_project.Prelude.{
  ℕ, suc, ◌+◌, ◌-◌, ◌*◌, ◌%◌, ◌^◌, ◌≤◌, ◌<◌, Bool, true, false, Option, none, some, List, [], ◌∷◌,
  ◌++◌, length, ok, ◌≡◌, ◌≢◌, sym, ap, ap₂, ◌∙◌, arith, ◌⊎◌,
}
use infotact_python_project.Bytes.{Bytes, write_at}
use infotact_python_project.Bytes.Slices.{length-write_at}
use infotact_python_project.Bytes.Slots.{slot, slot-write_self, slot-write_ne, slot-write_header}
use infotact_python_project.Window.{window, length-window, window_extend}
use infotact_python_project.EventRing.{
  Ring, header_size, unpack_header, pack_counters, store, write,
}
use infotact_python_project.EventRing.Layout.{
  head, tail, dropped, counters, length-counters, head-counters, tail-counters, dropped-counters,
}

-- An open ring whose map is long enough. The unread records fit the ring, and the reader is where
-- the tail is, unless it was passed by.
pub record IsValid (r : Ring) : Type 0 where
  pub opened : r.is_closed ≡ false
  pub some_slots : 0 < r.capacity
  pub long : header_size + r.capacity * r.record_size ≤ length r.map
  pub ordered : tail r.map ≤ head r.map
  pub fits : head r.map ≤ tail r.map + r.capacity
  pub small : head r.map + dropped r.map < 2 ^ 64
  pub reader : r.local_read_seq ≤ tail r.map
  pub passed_by : (r.local_read_seq ≡ tail r.map) ⊎ (head r.map ≡ tail r.map + r.capacity)

abbrev pub unread : Ring → ℕ
unread r = head r.map - tail r.map

-- The records from the tail to the head.
unfoldable pub contents : Ring → List Bytes
contents r =
    window (slot header_size r.record_size r.map) r.capacity (tail r.map % r.capacity) (unread r)

pub length-contents : (r : Ring) → length (contents r) ≡ unread r
unfolding contents
length-contents r = length-window _ _ _ _

abbrev pub oldest : List Bytes → Option Bytes
oldest [] = none
oldest (x ∷ rest) = some x

abbrev pub later : List Bytes → List Bytes
later [] = []
later (x ∷ rest) = rest

module _ (r : Ring) (v : IsValid r) where
  -- The ring after a record was stored, with the new tail and drops.
  abbrev pub stored : Bytes → ℕ → ℕ → Ring
  stored x t d = record r {
    map =
        write_at 22 (counters (head r.map + 1) t d)
          (write_at (header_size + (head r.map % r.capacity) * r.record_size) x r.map);
  }

  pub store_lem :
      (x : Bytes) (t d : ℕ)
      → head r.map + 1 < 2 ^ 64
      → t < 2 ^ 64
      → d < 2 ^ 64
      → store x (head r.map) t d r ≡ (ok true, stored x t d)
  unfolding store pack_counters
  store_lem x t d a b c = ground (arith, v.some_slots)

  pub write_room :
      (x : Bytes) (overwrite : Bool)
      → length x ≡ r.record_size
      → unread r < r.capacity
      → write x overwrite r ≡ store x (head r.map) (tail r.map) (dropped r.map) r
  unfolding write unpack_header
  write_room x overwrite l h = ground (arith, v.opened, v.ordered)

  pub write_full :
      (x : Bytes)
      → length x ≡ r.record_size
      → unread r ≡ r.capacity
      → write x true r ≡ store x (head r.map) (head r.map + 1 - r.capacity) (dropped r.map + 1) r
  unfolding write unpack_header
  write_full x l h = ground (arith, v.opened, v.ordered)

  pub write_refused :
      (x : Bytes)
      → length x ≡ r.record_size
      → unread r ≡ r.capacity
      → write x false r ≡ (ok false, r)
  unfolding write unpack_header
  write_refused x l h = ground (arith, v.opened, v.ordered)

  abbrev pub place : ℕ
  place = head r.map % r.capacity

  abbrev pub record_at : Bytes → ℕ → Bytes
  record_at m = slot header_size r.record_size m

  pub length-stored :
      (x : Bytes) → 46 ≤ length (write_at (header_size + place * r.record_size) x r.map)
  length-stored x =
      omega (arith, v.long, length-write_at (header_size + place * r.record_size) x r.map)

  slot_new :
      (x : Bytes) (t d : ℕ) → length x ≡ r.record_size → record_at (stored x t d).map place ≡ x
  slot_new x t d l =
      slot-write_header header_size r.record_size r.capacity _ _ 22 place
        (omega (arith, length-counters (head r.map + 1) t d r.map (omega (arith, v.long))))
      ∙ slot-write_self header_size r.record_size r.capacity r.map x place
          (mod-lt (head r.map) v.some_slots) l v.long

  slot_old :
      (x : Bytes) (t d i : ℕ)
      → length x ≡ r.record_size
      → place ≢ i
      → record_at (stored x t d).map i ≡ record_at r.map i
  slot_old x t d i l apart =
      slot-write_header header_size r.record_size r.capacity _ _ 22 i
        (omega (arith, length-counters (head r.map + 1) t d r.map (omega (arith, v.long))))
      ∙ slot-write_ne header_size r.record_size r.capacity r.map x place i apart l

  pub contents-stored :
      (x : Bytes) (t d : ℕ)
      → length x ≡ r.record_size
      → head r.map + 1 < 2 ^ 64
      → t ≤ head r.map
      → head r.map < t + r.capacity
      → contents (stored x t d)
        ≡ window (record_at r.map) r.capacity (t % r.capacity) (head r.map - t) ++ (x ∷ [])
  unfolding contents
  contents-stored x t d l h a b =
      ap₂ (λ i n. window (record_at (stored x t d).map) r.capacity (i % r.capacity) n)
        (tail-counters (head r.map + 1) t d _ (length-stored x) (omega arith)) one_more
      ∙ window_extend (record_at r.map) (record_at (stored x t d).map) r.capacity place x
          (head r.map - t) (t % r.capacity) behind (mod-lt t v.some_slots) (omega arith)
          (slot_new x t d l) (λ i apart. slot_old x t d i l apart)
    where
      one_more : unread (stored x t d) ≡ suc (head r.map - t)
      one_more =
          rw
            (
              head-counters (head r.map + 1) t d _ (length-stored x) h,
              tail-counters (head r.map + 1) t d _ (length-stored x) (omega arith),
            )
            (omega arith)

      behind : place ≡ (t % r.capacity + (head r.map - t)) % r.capacity
      behind =
          ap (λ n. n % r.capacity) (omega arith) ∙ sym (mod-add-mod t r.capacity (head r.map - t))

  pub stored-IsValid :
      (x : Bytes) (t d : ℕ)
      → head r.map + 1 + d < 2 ^ 64
      → t ≤ head r.map
      → head r.map + 1 ≤ t + r.capacity
      → r.local_read_seq ≤ t
      → (r.local_read_seq ≡ t) ⊎ (head r.map + 1 ≡ t + r.capacity)
      → IsValid (stored x t d)
  stored-IsValid x t d h a b c e = record {
    opened = v.opened;
    some_slots = v.some_slots;
    long = omega (
      arith,
      v.long,
      length-write_at 22 (counters (head r.map + 1) t d)
          (write_at (header_size + place * r.record_size) x r.map),
      length-write_at (header_size + place * r.record_size) x r.map,
    );
    ordered = rw (new_head, new_tail) (omega arith);
    fits = rw (new_head, new_tail) b;
    small = rw (new_head, new_dropped) h;
    reader = rw new_tail c;
    passed_by = rw (new_head, new_tail) e;
  }
    where
      new_head : head (stored x t d).map ≡ head r.map + 1
      new_head = head-counters (head r.map + 1) t d _ (length-stored x) (omega arith)

      new_tail : tail (stored x t d).map ≡ t
      new_tail = tail-counters (head r.map + 1) t d _ (length-stored x) (omega arith)

      new_dropped : dropped (stored x t d).map ≡ d
      new_dropped = dropped-counters (head r.map + 1) t d _ (length-stored x) (omega arith)

  -- The first record of a window that is not empty, and the others.
  pub later-contents :
      0 < unread r
      → contents r
        ≡ record_at r.map (tail r.map % r.capacity)
          ∷ window (record_at r.map) r.capacity ((tail r.map + 1) % r.capacity) (unread r - 1)
  unfolding contents window
  later-contents h =
      ap (window (record_at r.map) r.capacity (tail r.map % r.capacity)) one_more
      ∙ ap
          (λ i.
            record_at r.map (tail r.map % r.capacity)
            ∷ window (record_at r.map) r.capacity i (unread r - 1))
          (mod-add-mod (tail r.map) r.capacity 1)
    where
      one_more : unread r ≡ suc (unread r - 1)
      one_more = omega arith

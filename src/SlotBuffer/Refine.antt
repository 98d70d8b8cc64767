-- ===== src/SlotBuffer/Refine.antt =====
-- The buffer of src/data_processing/ipc_buffer.py is a queue as long as the writer is at most a
-- round ahead of the reader; past that, a write goes over the oldest record.
use native.Mathlib.Nat.{mod-lt, mod-add-mod, add-mod_right}
use native.Mathlib.Decide.{ℕ_discrete}
use infotact_python_project.Prelude.{
  ℕ, suc, ◌+◌, ◌-◌, ◌%◌, ◌^◌, ◌<◌, Option, none, some, List, [], ◌∷◌, ◌++◌, length, ok, ◌≡◌, ◌≢◌,
  refl, sym, ap, ap₂, ◌∙◌, arith,
}
use infotact_python_project.Bytes.{Bytes}
use infotact_python_project.Bytes.Ints.{length-encode}
use infotact_python_project.Bytes.Slots.{slot, slot-write_self, slot-write_ne, slot-write_header}
use infotact_python_project.Window.{window, length-window, window_agree, window_extend}
use infotact_python_project.Processor.{order_size}
use infotact_python_project.SlotBuffer.{
  Buffer, header_size, get_write_index, get_read_index, write, read,
}
use infotact_python_project.SlotBuffer.Indices.{
  IsValid, written, consumed, write_lem, read_at_end, read_next, write_index-written,
  read_index-written, write_index-consumed, read_index-consumed, written-IsValid, consumed-IsValid,
}

abbrev pub pending : Buffer → ℕ
pending b = get_write_index b - get_read_index b

-- The records from the read index to the write index.
unfoldable pub contents : Buffer → List Bytes
contents b =
    window (slot header_size order_size b.map) b.num_slots (get_read_index b % b.num_slots)
      (pending b)

pub length-contents : (b : Buffer) → length (contents b) ≡ pending b
unfolding contents
length-contents b = length-window _ _ _ _

abbrev pub oldest : List Bytes → Option Bytes
oldest [] = none
oldest (x ∷ rest) = some x

abbrev pub later : List Bytes → List Bytes
later [] = []
later (x ∷ rest) = rest

module _ (b : Buffer) (v : IsValid b) where
  tail : ℕ
  tail = get_write_index b % b.num_slots

  -- The slots after a write are those before it, but for one.
  slot_new :
      (x : Bytes) → length x ≡ order_size → slot header_size order_size (written b v x).map tail ≡ x
  unfolding tail
  slot_new x l =
      slot-write_header header_size order_size b.num_slots _ _ 0 tail
        (omega (arith, length-encode 8 (get_write_index b + 1)))
      ∙ slot-write_self header_size order_size b.num_slots b.map x tail
          (mod-lt (get_write_index b) v.some_slots) l (omega (arith, v.length_map))

  slot_old :
      (x : Bytes) (i : ℕ)
      → length x ≡ order_size
      → tail ≢ i
      → slot header_size order_size (written b v x).map i ≡ slot header_size order_size b.map i
  unfolding tail
  slot_old x i l apart =
      slot-write_header header_size order_size b.num_slots _ _ 0 i
        (omega (arith, length-encode 8 (get_write_index b + 1)))
      ∙ slot-write_ne header_size order_size b.num_slots b.map x tail i apart l

  contents-written :
      (x : Bytes)
      → length x ≡ order_size
      → get_write_index b + 1 < 2 ^ 64
      → pending b < b.num_slots
      → contents (written b v x) ≡ contents b ++ (x ∷ [])
  unfolding contents tail
  contents-written x l h room =
      ap₂
        (λ r n.
          window (slot header_size order_size (written b v x).map) b.num_slots (r % b.num_slots) n)
        (read_index-written b v x) one_more
      ∙ window_extend (slot header_size order_size b.map)
          (slot header_size order_size (written b v x).map) b.num_slots tail x (pending b)
          (get_read_index b % b.num_slots) behind (mod-lt (get_read_index b) v.some_slots) room
          (slot_new x l) (λ i apart. slot_old x i l apart)
    where
      one_more : pending (written b v x) ≡ suc (pending b)
      one_more =
          rw (read_index-written b v x, write_index-written b v x h) (omega (arith, v.behind))

      behind : tail ≡ (get_read_index b % b.num_slots + pending b) % b.num_slots
      behind =
          ap (λ n. n % b.num_slots) (omega (arith, v.behind))
          ∙ sym (mod-add-mod (get_read_index b) b.num_slots (pending b))

  contents-consumed :
      get_read_index b < get_write_index b
      → contents b
        ≡ slot header_size order_size b.map (get_read_index b % b.num_slots)
          ∷ contents (consumed b v)
  unfolding contents window
  contents-consumed h =
      ap (window (slot header_size order_size b.map) b.num_slots (get_read_index b % b.num_slots))
        one_less
      ∙ ap (◌∷◌ (slot header_size order_size b.map (get_read_index b % b.num_slots))) (
          sym (
            window_agree _ _ b.num_slots _ (pending (consumed b v)) (λ i.
              slot-write_header header_size order_size b.num_slots b.map _ 8 i
                (omega (arith, length-encode 8 (get_read_index b + 1)))))
          ∙ ap
              (λ i.
                window (slot header_size order_size (consumed b v).map) b.num_slots i
                  (pending (consumed b v)))
              next)
    where
      one_less : pending b ≡ suc (pending (consumed b v))
      one_less = rw (read_index-consumed b v h, write_index-consumed b v) (omega arith)

      next :
          (get_read_index b % b.num_slots + 1) % b.num_slots
          ≡ get_read_index (consumed b v) % b.num_slots
      next =
          mod-add-mod (get_read_index b) b.num_slots 1
          ∙ ap (λ i. i % b.num_slots) (sym (read_index-consumed b v h))

  contents_none : get_write_index b ≡ get_read_index b → contents b ≡ []
  unfolding contents window
  contents_none e =
      ap (window (slot header_size order_size b.map) b.num_slots (get_read_index b % b.num_slots))
        {y = 0} (omega arith)

  -- A write of an order, while fewer records wait than there are slots, returns the write index,
  -- moves it on by one, and adds the record at the end of those that wait.
  pub write_refines :
      (x : Bytes)
      → length x ≡ order_size
      → get_write_index b + 1 < 2 ^ 64
      → pending b < b.num_slots
      → let (s, b') = write x b in
        (s ≡ ok (get_write_index b))
        × IsValid b'
        × (b'.num_slots ≡ b.num_slots)
        × (get_write_index b' ≡ get_write_index b + 1)
        × (contents b' ≡ contents b ++ (x ∷ []))
  write_refines x l h room = rw (write_lem b v x l h) (
    refl,
    written-IsValid b v x h,
    refl,
    write_index-written b v x h,
    contents-written x l h room,
  )

  -- A read returns the oldest of the records that wait, or none, leaves the rest, and does not
  -- touch the write index.
  pub read_refines :
      let (s, b') = read b in
      IsValid b'
      × (b'.num_slots ≡ b.num_slots)
      × (get_write_index b' ≡ get_write_index b)
      × (s ≡ ok (oldest (contents b)))
      × (contents b' ≡ later (contents b))
  read_refines = elim (ℕ_discrete (get_write_index b) (get_read_index b)) [
    | yes e ↦ rw (read_at_end b v e, contents_none e) (v, refl, refl, refl, refl)
    | no e ↦
        let h : get_read_index b < get_write_index b = omega (arith, v.behind) in
        rw (read_next b v h, contents-consumed h)
          (consumed-IsValid b v h, refl, write_index-consumed b v, refl, refl)
  ]

  -- A write while every slot waits is accepted too. The next read then returns the record just
  -- written, which is the newest, and not the oldest one, which is lost.
  pub write_overruns :
      (x : Bytes)
      → length x ≡ order_size
      → get_write_index b + 1 < 2 ^ 64
      → pending b ≡ b.num_slots
      → let (s, b') = write x b in (s ≡ ok (get_write_index b)) × ((read b').0 ≡ ok (some x))
  unfolding tail
  write_overruns x l h full = rw (write_lem b v x l h) (
    refl,
    ap (λ r. r.0) (read_next (written b v x) (written-IsValid b v x h) ahead)
        ∙ ap (λ i. ok (some (slot header_size order_size (written b v x).map i))) first_slot
        ∙ ap (λ y. ok (some y)) (slot_new x l),
  )
    where
      ahead : get_read_index (written b v x) < get_write_index (written b v x)
      ahead = rw (read_index-written b v x, write_index-written b v x h) (omega (arith, v.behind))

      first_slot : get_read_index (written b v x) % b.num_slots ≡ tail
      first_slot =
          ap (λ i. i % b.num_slots) (read_index-written b v x)
          ∙ sym (add-mod_right (get_read_index b) b.num_slots)
          ∙ ap (λ i. i % b.num_slots) (omega (arith, v.behind))

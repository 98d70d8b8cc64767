-- ===== src/EventRing/Reads.antt =====
-- The primary reader of src/ipc/mmap_buffer.py: a read takes the oldest record that waits.
use native.Mathlib.Decide.{ℕ_discrete}
use infotact_python_project.Prelude.{
  ℕ, ◌+◌, ◌-◌, ◌%◌, ◌≤◌, ◌<◌, none, some, [], length, ok, ◌≡◌, refl, sym, ap, ap₂, ◌∙◌, arith, inl,
}
use infotact_python_project.Bytes.{encode, write_at}
use infotact_python_project.Bytes.Ints.{length-encode}
use infotact_python_project.Bytes.Slices.{length-write_at}
use infotact_python_project.Bytes.Slots.{slot-write_header}
use infotact_python_project.Window.{window, window_agree}
use infotact_python_project.EventRing.{Ring, header_size, unpack_header, read, caught_up, advance}
use infotact_python_project.EventRing.Layout.{
  head, tail, dropped, head-tail, tail-tail, dropped-tail,
}
use infotact_python_project.EventRing.Log.{
  IsValid, unread, contents, length-contents, oldest, later, later-contents, record_at,
}
use infotact_python_project.EventRing.Writes.{waiting, empty_of}

module _ (r : Ring) (v : IsValid r) where
  -- The place of the primary reader is the tail.
  at_tail : 0 < unread r → caught_up (head r.map) r.capacity r.local_read_seq ≡ tail r.map
  unfolding caught_up
  at_tail h = ground (arith, v.reader, v.passed_by, v.fits, v.ordered)

  abbrev consumed : Ring
  consumed = record r {
    local_read_seq = tail r.map + 1;
    map = write_at 30 (encode 8 (tail r.map + 1)) r.map;
  }

  read_empty : unread r ≡ 0 → read none r ≡ (ok (none, r.local_read_seq), r)
  unfolding read unpack_header
  read_empty h = ground (arith, v.opened, v.reader, v.passed_by, v.fits, v.ordered, v.some_slots)

  read_more :
      0 < unread r
      → read none r
        ≡ (ok (some (record_at r v r.map (tail r.map % r.capacity)), tail r.map + 1), consumed)
  unfolding read unpack_header advance
  read_more h = ground (arith, v.opened, v.some_slots, v.reader, v.ordered, at_tail h)

  consumed-IsValid : 0 < unread r → IsValid consumed
  consumed-IsValid h = record {
    opened = v.opened;
    some_slots = v.some_slots;
    long = omega (arith, v.long, length-write_at 30 (encode 8 (tail r.map + 1)) r.map);
    ordered = rw (same_head, new_tail) (omega arith);
    fits = rw (same_head, new_tail) (omega (arith, v.fits));
    small = rw (same_head, same_dropped) v.small;
    reader = rw new_tail (omega arith);
    passed_by = inl (sym new_tail);
  }
    where
      room : 46 ≤ length r.map
      room = omega (arith, v.long)

      same_head : head consumed.map ≡ head r.map
      same_head = head-tail (tail r.map + 1) r.map room

      same_dropped : dropped consumed.map ≡ dropped r.map
      same_dropped = dropped-tail (tail r.map + 1) r.map room

      new_tail : tail consumed.map ≡ tail r.map + 1
      new_tail = tail-tail (tail r.map + 1) r.map room (omega (arith, v.small))

  contents-consumed : 0 < unread r → contents consumed ≡ later (contents r)
  unfolding contents
  contents-consumed h =
      ap₂ (λ i n. window (record_at r v consumed.map) r.capacity (i % r.capacity) n) new_tail
        one_less
      ∙ window_agree (record_at r v r.map) (record_at r v consumed.map) r.capacity
          ((tail r.map + 1) % r.capacity) (unread r - 1)
          (λ i.
            slot-write_header header_size r.record_size r.capacity r.map (encode 8 (tail r.map + 1))
              30 i (omega (arith, length-encode 8 (tail r.map + 1))))
      ∙ sym (ap later (later-contents r v h))
    where
      new_tail : tail consumed.map ≡ tail r.map + 1
      new_tail = tail-tail (tail r.map + 1) r.map (omega (arith, v.long)) (omega (arith, v.small))

      one_less : unread consumed ≡ unread r - 1
      one_less =
          rw (head-tail (tail r.map + 1) r.map (omega (arith, v.long)), new_tail) (omega arith)

  -- A read of the primary reader returns the oldest of the records that wait, or none, and leaves
  -- the others. It does not count as a drop.
  pub event_read_refines :
      let (s, r') = read none r in
      IsValid r'
      × (r'.capacity ≡ r.capacity)
      × (r'.record_size ≡ r.record_size)
      × (head r'.map ≡ head r.map)
      × ((next : ℕ) × (s ≡ ok (oldest (contents r), next)))
      × (waiting r' ≡ (later (contents r), dropped r.map))
  event_read_refines = elim (ℕ_discrete (unread r) 0) [
    | yes e ↦ rw (read_empty e, no_contents e) (v, refl, refl, refl, (r.local_read_seq, refl), refl)
    | no e ↦
        let h : 0 < unread r = omega arith in
        rw (read_more h) (
          consumed-IsValid h,
          refl,
          refl,
          head-tail (tail r.map + 1) r.map (omega (arith, v.long)),
          (tail r.map + 1, ap (λ q. ok (oldest q, tail r.map + 1)) (sym (later-contents r v h))),
          ap₂ (λ q d. (q, d)) (contents-consumed h)
              (dropped-tail (tail r.map + 1) r.map (omega (arith, v.long))),
        )
  ]
    where
      no_contents : unread r ≡ 0 → contents r ≡ []
      no_contents e = empty_of (contents r) (length-contents r ∙ e)

-- ===== src/EventRing/Examples.antt =====
-- Runs of the event ring, and its theorems at concrete inputs.
use infotact_python_project.Prelude.{
  ◌+◌, true, false, none, some, List, [], ◌∷◌, length, replicate, ok, ◌≡◌, refl, arith, inl,
}
use infotact_python_project.Bytes.{encode, decode, read_at, write_at, overlay}
use infotact_python_project.EventRing.{Ring, new_header, create_buffer}
use infotact_python_project.EventRing.Layout.{head, tail, dropped}
use infotact_python_project.EventRing.Log.{IsValid, contents}
use infotact_python_project.EventRing.Writes.{offer, waiting}
use infotact_python_project.EventRing.Runs.{
  Call, writes, reads, taken, got, run, run_queue, event_run_refines, event_run_accounts,
  how_many_taken, how_many_got,
}

-- Two slots of one byte.
abbrev ring : Ring
ring = record {
  capacity = 2;
  record_size = 1;
  is_closed = false;
  local_read_seq = 0;
  map = write_at 0 (new_header 1 2) (replicate 66 0);
}

ring-created : create_buffer 2 1 ≡ ok ring
unfolding create_buffer
ring-created = refl

ring_head : head ring.map ≡ 0
unfolding decode read_at write_at overlay new_header encode
ring_head = refl

ring_tail : tail ring.map ≡ 0
unfolding decode read_at write_at overlay new_header encode
ring_tail = refl

ring_dropped : dropped ring.map ≡ 0
unfolding decode read_at write_at overlay new_header encode
ring_dropped = refl

ring_length : length ring.map ≡ 66
unfolding decode read_at write_at overlay new_header encode
ring_length = refl

ring-IsValid : IsValid ring
ring-IsValid = record {
  opened = refl;
  some_slots = omega arith;
  long = omega (arith, ring_length);
  ordered = omega (arith, ring_head, ring_tail);
  fits = omega (arith, ring_head, ring_tail);
  small = omega (arith, ring_head, ring_dropped);
  reader = omega arith;
  passed_by = inl (omega (arith, ring_tail));
}

-- The third write goes over the first record, the fourth is refused.
abbrev calls : List Call
calls =
    writes (1 ∷ []) true
    ∷ writes (2 ∷ []) true
    ∷ writes (3 ∷ []) true
    ∷ writes (4 ∷ []) false
    ∷ reads
    ∷ reads
    ∷ reads
    ∷ []

calls-replies :
    (run_queue 2 calls ([], 0)).0
    ≡ taken true
      ∷ taken true
      ∷ taken true
      ∷ taken false
      ∷ got (some (2 ∷ []))
      ∷ got (some (3 ∷ []))
      ∷ got none
      ∷ []
unfolding run_queue offer
calls-replies = refl

event_run_refines_example :
    ((run calls ring).0 ≡ (run_queue 2 calls (waiting ring)).0)
    × (waiting (run calls ring).1 ≡ (run_queue 2 calls (waiting ring)).1)
event_run_refines_example =
    event_run_refines calls ring ring-IsValid (refl, (refl, (refl, (refl, (tt, (tt, (tt, tt)))))))
      (omega (arith, ring_head, ring_dropped))

event_run_accounts_example :
    let (replies, r') = run calls ring in
    length (contents ring) + dropped ring.map + how_many_taken replies
    ≡ how_many_got replies + (length (contents r') + dropped r'.map)
event_run_accounts_example =
    event_run_accounts calls ring ring-IsValid (refl, (refl, (refl, (refl, (tt, (tt, (tt, tt)))))))
      (omega (arith, ring_head, ring_dropped))

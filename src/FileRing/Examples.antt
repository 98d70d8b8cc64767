-- ===== src/FileRing/Examples.antt =====
-- Theorems on the file ring at a ring of two slots.
use infotact_python_project.Prelude.{
  ℕ, ◌<◌, ◌^◌, ◌⊎◌, Option, true, false, none, some, List, [], ◌∷◌, replicate, ok, err, ◌≡◌, refl,
  ap, arith,
}
use infotact_python_project.Bytes.{Bytes, bytes_eq, read_at, write_at, overlay, encode, decode}
use infotact_python_project.FileRing.{
  Ring, open_ring, open_file, initialize, check_metadata, bad_metadata, pack_header, unpack_header,
  header_bytes, buffer_full,
}
use infotact_python_project.FileRing.Fifo
use infotact_python_project.FileRing.Fifo.{Call, puts, gets, Reply, done, got}
use infotact_python_project.FileRing.Invariant.{IsValid, header}
use infotact_python_project.FileRing.Refine.{contents, contents_empty, run, run_refines}
use infotact_python_project.FileRing.Accepted.{IsChecked, NoMagic, open_ring_cases}
use infotact_python_project.FileRing.Opening.{
  open_ring_again, new_ring, new_ring-IsValid, new_header,
}

two_slots : 2 < 2 ^ 32
two_slots = omega arith

some_slots : 0 < 2
some_slots = omega arith

abbrev empty_ring : Ring
empty_ring = new_ring 2 some_slots two_slots

empty_ring-IsValid : IsValid empty_ring
empty_ring-IsValid = new_ring-IsValid 2 some_slots two_slots

empty_ring-contents : contents empty_ring ≡ []
empty_ring-contents =
    contents_empty empty_ring empty_ring-IsValid
      (ap (λ f. f.count) (new_header 2 some_slots two_slots))

empty_ring-capacity : (header empty_ring).capacity ≡ 2
empty_ring-capacity = ap (λ f. f.capacity) (new_header 2 some_slots two_slots)

abbrev filled : ℕ → Bytes
filled b = replicate 33 b

abbrev calls : List Call
calls =
    gets
    ∷ puts (filled 1)
    ∷ puts (filled 2)
    ∷ puts (filled 3)
    ∷ gets
    ∷ puts (filled 4)
    ∷ gets
    ∷ gets
    ∷ gets
    ∷ []

run_refines_example :
    run empty_ring calls ≡ Fifo.run (header empty_ring).capacity (contents empty_ring) calls
run_refines_example = run_refines calls empty_ring (omega arith) empty_ring-IsValid

-- The third put finds the ring full; the ring goes round, and the last get finds it empty.
calls_replies :
    run empty_ring calls
    ≡ got (ok none)
      ∷ done (ok tt)
      ∷ done (ok tt)
      ∷ done (err buffer_full)
      ∷ got (ok (some (filled 1)))
      ∷ done (ok tt)
      ∷ got (ok (some (filled 2)))
      ∷ got (ok (some (filled 4)))
      ∷ got (ok none)
      ∷ []
unfolding Fifo.run Fifo.put Fifo.get
calls_replies = rw (run_refines_example, empty_ring-contents, empty_ring-capacity)

-- A file that is as large as a ring of one record, without the magic.
abbrev garbage : Bytes
garbage = replicate 57 1

abbrev renewed : Ring
renewed = record {
  capacity = 1;
  closed = false;
  map = write_at 0 (header_bytes 1 0 0 0) (replicate 57 0);
}

garbage-renewed : open_ring 1 true (some garbage) ≡ ok renewed
unfolding open_ring open_file initialize check_metadata bad_metadata pack_header unpack_header
    header_bytes bytes_eq read_at write_at overlay encode decode
garbage-renewed = refl

open_ring_cases_example :
    IsChecked renewed
    × ((◌≡◌ {A = Option Bytes} (some garbage) (some renewed.map))
        ⊎ ((true ≡ true)
            × NoMagic (some garbage)
            × (IsValid renewed × (renewed.capacity ≡ 1) × (contents renewed ≡ []))))
open_ring_cases_example = open_ring_cases 1 true (some garbage) renewed garbage-renewed

open_ring_again_example : open_ring 7 false (some empty_ring.map) ≡ ok empty_ring
open_ring_again_example = open_ring_again 7 false empty_ring (omega arith) empty_ring-IsValid

-- ===== src/SlotBuffer/Examples.antt =====
-- Runs of the slot buffer, and its theorems at concrete inputs.
use infotact_python_project.Prelude.{
  ℕ, ◌+◌, none, some, List, [], ◌∷◌, ◌++◌, length, replicate, ok, ◌≡◌, refl, arith, ◌∙◌, ap, sym,
}
use infotact_python_project.Bytes.{Bytes}
use infotact_python_project.Processor.{order_size}
use infotact_python_project.SlotBuffer.{Buffer, create_file, write, read, get_write_index}
use infotact_python_project.SlotBuffer.Indices.{IsValid}
use infotact_python_project.SlotBuffer.Refine.{
  contents, pending, length-contents, write_refines, write_overruns,
}
use infotact_python_project.SlotBuffer.Runs.{
  Call, writes, reads, received, queued, received-queued_new, create_file_lem, new_write_index,
}

abbrev record_of : ℕ → Bytes
record_of n = replicate order_size n

-- Two slots, a round and a half.
abbrev calls : List Call
calls =
    writes (record_of 1)
    ∷ writes (record_of 2)
    ∷ reads
    ∷ writes (record_of 3)
    ∷ reads
    ∷ reads
    ∷ reads
    ∷ []

received-queued_new_example : received calls (create_file 2) ≡ queued calls []
received-queued_new_example =
    received-queued_new 2 calls (omega arith) (omega arith)
      (refl, omega arith, (refl, omega arith, (refl, omega arith, tt)))

calls-received :
    received calls (create_file 2)
    ≡ some (record_of 1) ∷ some (record_of 2) ∷ some (record_of 3) ∷ none ∷ []
unfolding queued
calls-received = received-queued_new_example

new-IsValid : IsValid (create_file 1)
new-IsValid = (create_file_lem 1 (omega arith)).0

new_pending : pending (create_file 1) ≡ 0
new_pending = omega (arith, new_write_index 1)

abbrev one_waits : Buffer
one_waits = (write (record_of 1) (create_file 1)).1

-- What is known of the buffer of one slot after a write.
one_write :
    let (s, b') = write (record_of 1) (create_file 1) in
    (s ≡ ok (get_write_index (create_file 1)))
    × IsValid b'
    × (b'.num_slots ≡ (create_file 1).num_slots)
    × (get_write_index b' ≡ get_write_index (create_file 1) + 1)
    × (contents b' ≡ contents (create_file 1) ++ (record_of 1 ∷ []))
unfolding create_file
one_write =
    write_refines (create_file 1) new-IsValid (record_of 1) refl (omega (arith, new_write_index 1))
      (omega (arith, new_pending))

one_waits-IsValid : IsValid one_waits
one_waits-IsValid = let (s, v, same, index, e) = one_write in v

one_waits_index : get_write_index one_waits ≡ 1
one_waits_index = let (s, v, same, index, e) = one_write in omega (arith, index, new_write_index 1)

one_waits-contents : contents one_waits ≡ record_of 1 ∷ []
one_waits-contents =
    let (s, v, same, index, e) = one_write in
    e ∙ ap (λ q. q ++ (record_of 1 ∷ [])) (create_file_lem 1 (omega arith)).1

one_waits_full : pending one_waits ≡ one_waits.num_slots
unfolding create_file
one_waits_full =
    let (s, v, same, index, e) = one_write in
    sym (length-contents one_waits) ∙ ap length one_waits-contents ∙ sym same

write_overruns_example :
    let (s, b') = write (record_of 2) one_waits in
    (s ≡ ok (get_write_index one_waits)) × ((read b').0 ≡ ok (some (record_of 2)))
write_overruns_example =
    write_overruns one_waits one_waits-IsValid (record_of 2) refl (omega (arith, one_waits_index))
      one_waits_full

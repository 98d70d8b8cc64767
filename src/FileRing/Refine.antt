-- ===== src/FileRing/Refine.antt =====
-- The ring of src/ipc/ring_buffer.py behaves as the bounded queue of its records.
use infotact_python_project.Prelude.{
  ℕ, suc, ◌+◌, ◌-◌, ◌*◌, ◌%◌, ◌<◌, List, [], ◌∷◌, ◌++◌, length, ◌≡◌, refl, sym, ap, ap₂, ◌∙◌, arith,
  ==_iff, All,
}
use native.Mathlib.Decide.{ℕ_discrete}
use native.Mathlib.Numerals.{add-one}
use infotact_python_project.Bytes.{Bytes, write_at}
use infotact_python_project.Bytes.Slots.{slot, slot-write_self, slot-write_ne, slot-write_header}
use infotact_python_project.Window.{window, length-window, window_agree, window_extend}
use infotact_python_project.FileRing.{Ring, header_size, record_size, put, get}
use infotact_python_project.FileRing.Layout.{length-header_bytes}
use infotact_python_project.FileRing.Invariant.{
  IsValid, header, put_full, put_room, get_drained, get_waiting, put_header, get_header,
  put-IsValid, get-IsValid, put_map, get_map, get_head, write_in,
}
use infotact_python_project.FileRing.Fifo
use infotact_python_project.FileRing.Fifo.{Fifo, Call, Reply, puts, gets, done, got}

-- The records that wait in the ring, oldest first.
pub contents : Ring → Fifo
contents r =
    window (slot header_size record_size r.map) (header r).capacity (header r).read_idx
      (header r).count

pub length-contents : (r : Ring) → length (contents r) ≡ (header r).count
unfolding contents
length-contents r = length-window _ _ _ _

module _ (r : Ring) (v : IsValid r) where
  contents_put :
      (rec : Bytes)
      → length rec ≡ record_size
      → (header r).count < (header r).capacity
      → contents (record r { map = put_map r v rec }) ≡ contents r ++ (rec ∷ [])
  unfolding contents
  contents_put rec l room = rw (put_header r v rec room) (
      ap (window (slot header_size record_size (put_map r v rec)) slots (header r).read_idx)
        (add-one (header r).count)
      ∙ window_extend (slot header_size record_size r.map)
          (slot header_size record_size (put_map r v rec)) slots tail rec (header r).count
          (header r).read_idx v.behind v.read_in room
          (below_header tail
            ∙ slot-write_self header_size record_size slots r.map rec tail (write_in r v) l
                (omega (arith, v.size)))
          (λ i apart.
            below_header i ∙ slot-write_ne header_size record_size slots r.map rec tail i apart l))
    where
      slots : ℕ
      slots = (header r).capacity

      tail : ℕ
      tail = (header r).write_idx

      below_header :
          (i : ℕ)
          → slot header_size record_size (put_map r v rec) i
            ≡ slot header_size record_size (write_at (header_size + tail * record_size) rec r.map) i
      below_header i =
          slot-write_header header_size record_size slots _ _ 0 i
            (omega (arith, length-header_bytes))

  pub contents_empty : (header r).count ≡ 0 → contents r ≡ []
  unfolding contents window
  contents_empty e =
      ap (window (slot header_size record_size r.map) (header r).capacity (header r).read_idx) e

  contents_get :
      0 < (header r).count
      → contents r
        ≡ slot header_size record_size r.map (header r).read_idx
          ∷ contents (record r { map = get_map r v })
  unfolding contents window
  contents_get more = rw (get_header r v more) (
      ap (window (slot header_size record_size r.map) slots (header r).read_idx) one_more
      ∙ ap (◌∷◌ (slot header_size record_size r.map (header r).read_idx)) (
          sym (
            window_agree _ _ slots (((header r).read_idx + 1) % slots) ((header r).count - 1) (λ i.
              slot-write_header header_size record_size slots r.map (get_head r v) 0 i
                (omega (arith, length-header_bytes))))))
    where
      slots : ℕ
      slots = (header r).capacity

      one_more : (header r).count ≡ suc ((header r).count - 1)
      one_more = omega arith

  -- `put` returns what the bounded queue of the ring's records returns, and leaves the ring well
  -- formed, holding the queue's records.
  pub put_refines :
      (rec : Bytes)
      → length rec ≡ record_size
      → let (s, r') = put rec r in
        IsValid r'
        × ((header r').capacity ≡ (header r).capacity)
        × ((s, contents r') ≡ Fifo.put (header r).capacity rec (contents r))
  unfolding Fifo.put
  put_refines rec l = elim (ℕ_discrete (header r).count (header r).capacity) [
    | yes full ↦
        rw (put_full r v rec l full, (==_iff _ _).1 (length-contents r ∙ full)) (v, refl, refl)
    | no room ↦
        let free : (header r).count < (header r).capacity = omega (arith, v.count_in) in
        rw (put_room r v rec l free) (
          put-IsValid r v rec free,
          rw (put_header r v rec free),
          rw (contents_put rec l free) (ground (arith, length-contents r)),
        )
  ]

  -- `get` returns the oldest record, or none, and leaves the ring well formed, holding the rest.
  pub get_refines :
      let (s, r') = get r in
      IsValid r'
      × ((header r').capacity ≡ (header r).capacity)
      × ((s, contents r') ≡ Fifo.get (contents r))
  unfolding Fifo.get
  get_refines = elim (ℕ_discrete (header r).count 0) [
    | yes none_left ↦ rw (get_drained r v none_left) (v, refl, rw (contents_empty none_left))
    | no some_left ↦
        let more : 0 < (header r).count = omega arith in
        rw (get_waiting r v more)
          (get-IsValid r v more, rw (get_header r v more), rw (contents_get more))
  ]

pub run : Ring → List Call → List Reply
run r [] = []
run r (puts x ∷ calls) = done (put x r).0 ∷ run (put x r).1 calls
run r (gets ∷ calls) = got (get r).0 ∷ run (get r).1 calls

abbrev pub FitsCall : Call → Type 0
FitsCall (puts x) = length x ≡ record_size
FitsCall gets = Unit {0}

-- No sequence of calls with records of the right size tells a well-formed ring from the bounded
-- queue of its records.
pub run_refines :
    (calls : List Call) (r : Ring)
    → All FitsCall calls
    → IsValid r
    → run r calls ≡ Fifo.run (header r).capacity (contents r) calls
unfolding run Fifo.run
run_refines [] r fits v = refl
run_refines (puts x ∷ calls) r fits v =
    let (v', same, e) = put_refines r v x fits.0 in
    ap₂ (λ s rest. done s ∷ rest) (ap (λ p. p.0) e)
      (run_refines calls (put x r).1 fits.1 v'
        ∙ ap₂ (λ c q. Fifo.run c q calls) same (ap (λ p. p.1) e))
run_refines (gets ∷ calls) r fits v =
    let (v', same, e) = get_refines r v in
    ap₂ (λ s rest. got s ∷ rest) (ap (λ p. p.0) e)
      (run_refines calls (get r).1 fits.1 v'
        ∙ ap₂ (λ c q. Fifo.run c q calls) same (ap (λ p. p.1) e))

-- ===== src/EventRing/Runs.antt =====
-- Any sequence of writes and of reads of the primary reader of src/ipc/mmap_buffer.py, and where
-- every record goes.
use infotact_python_project.Prelude.{
  ℕ, ◌+◌, ◌*◌, ◌^◌, ◌≤◌, ◌<◌, Bool, true, false, if◌then◌else◌, ltb, Option, none, some, List, [],
  ◌∷◌, ◌++◌, length, length-append, Result, ok, err, ◌≡◌, refl, sym, ap, ap₂, ◌∙◌, arith, All,
  Bool-cases, inl, inr,
}
use infotact_python_project.Bytes.{Bytes}
use infotact_python_project.EventRing.{Error, Ring, write, read}
use infotact_python_project.EventRing.Layout.{head, dropped}
use infotact_python_project.EventRing.Log.{IsValid, contents, oldest, later}
use infotact_python_project.EventRing.Reads.{event_read_refines}
use infotact_python_project.EventRing.Writes.{Waiting, waiting, offer, event_write_refines}

pub data Call : Type 0 where
  writes : Bytes → Bool → Call
  reads : Call

-- What a call tells its caller: whether the record was taken, or the record.
pub data Reply : Type 0 where
  taken : Bool → Reply
  got : Option Bytes → Reply
  failed : Reply

abbrev pub write_reply : Result Error Bool → Reply
write_reply (ok b) = taken b
write_reply (err e) = failed

abbrev pub read_reply : Result Error (Option Bytes × ℕ) → Reply
read_reply (ok r) = got r.0
read_reply (err e) = failed

unfoldable pub run : List Call → Ring → List Reply × Ring
run [] r = ([], r)
run (writes x overwrite ∷ calls) r =
    let (replies, r') = run calls (write x overwrite r).1 in
    (write_reply (write x overwrite r).0 ∷ replies, r')
run (reads ∷ calls) r =
    let (replies, r') = run calls (read none r).1 in (read_reply (read none r).0 ∷ replies, r')

-- The same calls on a queue of `capacity` records that counts its drops.
unfoldable pub run_queue : ℕ → List Call → Waiting → List Reply × Waiting
run_queue capacity [] q = ([], q)
run_queue capacity (writes x overwrite ∷ calls) q =
    let (replies, q') = run_queue capacity calls (offer overwrite capacity x q).1 in
    (taken (offer overwrite capacity x q).0 ∷ replies, q')
run_queue capacity (reads ∷ calls) q =
    let (replies, q') = run_queue capacity calls (later q.0, q.1) in
    (got (oldest q.0) ∷ replies, q')

abbrev pub FitsCall : ℕ → Call → Type 0
FitsCall size (writes x overwrite) = length x ≡ size
FitsCall size reads = Unit

grows :
    (overwrite : Bool) (capacity : ℕ) (x : Bytes) (q : Waiting)
    → (offer overwrite capacity x q).1.1 ≤ q.1 + 1
unfolding offer
grows overwrite capacity x q = ground arith

-- No sequence of writes of records of the right size and of reads of the primary reader tells the
-- ring from a queue that counts its drops. The head and the drops stay below 2^64.
pub event_run_refines :
    (calls : List Call) (r : Ring)
    → IsValid r
    → All (FitsCall r.record_size) calls
    → head r.map + dropped r.map + 2 * length calls < 2 ^ 64
    → ((run calls r).0 ≡ (run_queue r.capacity calls (waiting r)).0)
      × (waiting (run calls r).1 ≡ (run_queue r.capacity calls (waiting r)).1)
unfolding run run_queue
event_run_refines [] r v fits h = (refl, refl)
event_run_refines (writes x overwrite ∷ calls) r v fits h =
    let (v', same, size, up, s, e) = event_write_refines r v x overwrite fits.0 (omega arith) in
    let (a, b) =
      event_run_refines calls (write x overwrite r).1 v' (rw size fits.1)
        (omega (arith, up, grows overwrite r.capacity x (waiting r), ap (λ q. q.1) e)) in
    let t = ap₂ (λ c q. run_queue c calls q) same e in
    (ap₂ ◌∷◌ (ap write_reply s) (a ∙ ap (λ p. p.0) t), b ∙ ap (λ p. p.1) t)
event_run_refines (reads ∷ calls) r v fits h =
    let (v', same, size, up, (next, s), e) = event_read_refines r v in
    let (a, b) =
      event_run_refines calls (read none r).1 v' (rw size fits.1)
        (omega (arith, up, ap (λ q. q.1) e)) in
    let t = ap₂ (λ c q. run_queue c calls q) same e in
    (ap₂ ◌∷◌ (ap read_reply s) (a ∙ ap (λ p. p.0) t), b ∙ ap (λ p. p.1) t)

-- How many records were taken, and how many were handed out.
unfoldable pub how_many_taken : List Reply → ℕ
how_many_taken [] = 0
how_many_taken (taken true ∷ replies) = 1 + how_many_taken replies
how_many_taken (taken false ∷ replies) = how_many_taken replies
how_many_taken (got r ∷ replies) = how_many_taken replies
how_many_taken (failed ∷ replies) = how_many_taken replies

unfoldable pub how_many_got : List Reply → ℕ
how_many_got [] = 0
how_many_got (taken b ∷ replies) = how_many_got replies
how_many_got (got (some x) ∷ replies) = 1 + how_many_got replies
how_many_got (got none ∷ replies) = how_many_got replies
how_many_got (failed ∷ replies) = how_many_got replies

-- What an offer adds, to the queue or to the drops.
offer_balance :
    (overwrite : Bool) (capacity : ℕ) (x : Bytes) (q : Waiting)
    → 0 < capacity
    → let (b, q') = offer overwrite capacity x q in
      length q'.0 + q'.1 ≡ length q.0 + q.1 + (if b then 1 else 0)
unfolding offer
offer_balance overwrite capacity x (q, d) some_slots = elim (Bool-cases (ltb (length q) capacity)) [
  | inl e ↦ rw e (omega (arith, length-append q (x ∷ [])))
  | inr e ↦ rw e (full overwrite q (ground (arith, e)))
]
  where
    full :
        (overwrite : Bool) (q : List Bytes)
        → capacity ≤ length q
        → let (b, q') : Bool × Waiting =
            if overwrite then (true, (later q ++ (x ∷ []), d + 1)) else (false, (q, d)) in
          length q'.0 + q'.1 ≡ length q + d + (if b then 1 else 0)
    full false q h = omega arith
    full true [] h = absurd (omega arith)
    full true (y ∷ q) h = omega (arith, length-append q (x ∷ []))

one_taken :
    (b : Bool) (replies : List Reply)
    → how_many_taken (taken b ∷ replies) ≡ (if b then 1 else 0) + how_many_taken replies
unfolding how_many_taken
one_taken true replies = refl
one_taken false replies = omega arith

queue_balance :
    (capacity : ℕ) (calls : List Call) (q : Waiting)
    → 0 < capacity
    → let (replies, q') = run_queue capacity calls q in
      length q.0 + q.1 + how_many_taken replies ≡ how_many_got replies + (length q'.0 + q'.1)
unfolding run_queue how_many_taken how_many_got
queue_balance capacity [] q h = omega arith
queue_balance capacity (writes x overwrite ∷ calls) q h =
    let (b, q') = offer overwrite capacity x q in
    omega (
      arith,
      one_taken b (run_queue capacity calls q').0,
      offer_balance overwrite capacity x q h,
      queue_balance capacity calls q' h,
    )
queue_balance capacity (reads ∷ calls) ([], d) h = queue_balance capacity calls ([], d) h
queue_balance capacity (reads ∷ calls) (y ∷ q, d) h =
    omega (arith, queue_balance capacity calls (q, d) h)

-- In any such sequence of calls, the records that waited at first and those that were taken are as
-- many as those that the reader got, those that were dropped meanwhile, and those that wait at the
-- end: every record is accounted for.
pub event_run_accounts :
    (calls : List Call) (r : Ring)
    → IsValid r
    → All (FitsCall r.record_size) calls
    → head r.map + dropped r.map + 2 * length calls < 2 ^ 64
    → let (replies, r') = run calls r in
      length (contents r) + dropped r.map + how_many_taken replies
      ≡ how_many_got replies + (length (contents r') + dropped r'.map)
event_run_accounts calls r v fits h =
    let (a, b) = event_run_refines calls r v fits h in
    ap (λ replies. length (contents r) + dropped r.map + how_many_taken replies) a
    ∙ queue_balance r.capacity calls (waiting r) v.some_slots
    ∙ ap₂ (λ replies q. how_many_got replies + (length q.0 + q.1)) (sym a) (sym b)

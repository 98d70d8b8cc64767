-- ===== src/EventRing/Writes.antt =====
-- The writer of src/ipc/mmap_buffer.py: a write is an offer to a bounded queue that counts its
-- drops.
use native.Mathlib.Decide.{ℕ_discrete}
use infotact_python_project.Prelude.{
  ℕ, ◌+◌, ◌-◌, ◌%◌, ◌^◌, ◌≤◌, ◌<◌, Bool, true, false, if◌then◌else◌, ltb, List, [], ◌∷◌, ◌++◌,
  length, Result, ok, ◌≡◌, refl, sym, ap, ap₂, ◌∙◌, arith, inl, inr, lt→ltb,
}
use infotact_python_project.Bytes.{Bytes}
use infotact_python_project.Window.{window}
use infotact_python_project.EventRing.{Error, Ring, write}
use infotact_python_project.EventRing.Layout.{head, tail, dropped, head-counters, dropped-counters}
use infotact_python_project.EventRing.Log.{
  IsValid, unread, contents, length-contents, later, stored, store_lem, write_room, write_full,
  write_refused, contents-stored, stored-IsValid, later-contents, record_at, length-stored,
}

-- The records that wait, and how many were dropped.
abbrev pub Waiting : Type 0
Waiting = List Bytes × ℕ

abbrev pub waiting : Ring → Waiting
waiting r = (contents r, dropped r.map)

-- A record is offered to a queue of `capacity` records.
unfoldable pub offer : Bool → ℕ → Bytes → Waiting → Bool × Waiting
offer overwrite capacity x (q, drops) =
    if ltb (length q) capacity
    then (true, (q ++ (x ∷ []), drops))
    else if overwrite
    then (true, (later q ++ (x ∷ []), drops + 1))
    else (false, (q, drops))

pub empty_of : (q : List Bytes) → length q ≡ 0 → q ≡ []
empty_of [] h = refl
empty_of (x ∷ q) h = absurd (omega arith)

not_less : (n : ℕ) → ltb n n ≡ false
not_less n = ground arith

module _ (r : Ring) (v : IsValid r) where
  dropped-stored : (x : Bytes) (t d : ℕ) → d < 2 ^ 64 → dropped (stored r v x t d).map ≡ d
  dropped-stored x t d h = dropped-counters (head r.map + 1) t d _ (length-stored r v x) h

  head-stored :
      (x : Bytes) (t d : ℕ) → head r.map + 1 < 2 ^ 64 → head (stored r v x t d).map ≡ head r.map + 1
  head-stored x t d h = head-counters (head r.map + 1) t d _ (length-stored r v x) h

  contents_full :
      unread r ≡ r.capacity
      → window
          (record_at r v r.map)
          r.capacity
          ((head r.map + 1 - r.capacity) % r.capacity)
          (head r.map - (head r.map + 1 - r.capacity))
        ≡ later (contents r)
  contents_full h =
      ap₂ (λ t n. window (record_at r v r.map) r.capacity (t % r.capacity) n)
        {x = head r.map + 1 - r.capacity} {y = tail r.map + 1}
        {u = head r.map - (head r.map + 1 - r.capacity)} {v = unread r - 1}
        (omega (arith, h, v.ordered, v.some_slots)) (omega (arith, h, v.ordered, v.some_slots))
      ∙ sym (ap later (later-contents r v (omega (arith, h, v.some_slots))))

  contents-window :
      window (record_at r v r.map) r.capacity (tail r.map % r.capacity) (unread r) ≡ contents r
  unfolding contents
  contents-window = refl

  -- An outcome of a write that is the one of the offer.
  abbrev pub Offered : Bytes → Bool → Result Error Bool → Ring → Type 0
  Offered x overwrite s r' =
      IsValid r'
      × (r'.capacity ≡ r.capacity)
      × (r'.record_size ≡ r.record_size)
      × (head r'.map ≤ head r.map + 1)
      × (s ≡ ok (offer overwrite r.capacity x (waiting r)).0)
      × (waiting r' ≡ (offer overwrite r.capacity x (waiting r)).1)

  write_room-Offered :
      (x : Bytes) (overwrite : Bool)
      → length x ≡ r.record_size
      → head r.map + dropped r.map + 2 < 2 ^ 64
      → unread r < r.capacity
      → Offered x overwrite (write x overwrite r).0 (write x overwrite r).1
  unfolding offer
  write_room-Offered x overwrite l h room =
      rw
        (
          write_room r v x overwrite l room,
          store_lem r v x (tail r.map) (dropped r.map) (omega arith) (omega (arith, v.ordered))
              (omega arith),
          length-contents r,
          lt→ltb (unread r) r.capacity room,
        )
        (
          stored-IsValid r v x (tail r.map) (dropped r.map) (omega arith) v.ordered (omega arith)
              v.reader (elim v.passed_by [ inl e ↦ inl e | inr e ↦ absurd (omega arith) ]),
          refl,
          refl,
          omega (arith, head-stored x (tail r.map) (dropped r.map) (omega arith)),
          refl,
          ap₂ (λ q d. (q, d))
              (contents-stored r v x (tail r.map) (dropped r.map) l (omega arith) v.ordered
                  (omega arith)
                ∙ ap (λ q. q ++ (x ∷ [])) contents-window)
              (dropped-stored x (tail r.map) (dropped r.map) (omega arith)),
        )

  write_full-Offered :
      (x : Bytes) (overwrite : Bool)
      → length x ≡ r.record_size
      → head r.map + dropped r.map + 2 < 2 ^ 64
      → unread r ≡ r.capacity
      → Offered x overwrite (write x overwrite r).0 (write x overwrite r).1
  unfolding offer
  write_full-Offered x true l h full =
      rw
        (
          write_full r v x l full,
          store_lem r v x (head r.map + 1 - r.capacity) (dropped r.map + 1) (omega arith)
              (omega (arith, v.ordered, v.some_slots)) (omega arith),
          length-contents r,
          full,
          not_less r.capacity,
        )
        (
          stored-IsValid r v x (head r.map + 1 - r.capacity) (dropped r.map + 1) (omega arith)
              (omega (arith, v.some_slots, v.ordered, full)) (omega (arith, v.ordered, full))
              (omega (arith, v.reader, v.ordered, full)) (inr (omega (arith, v.ordered, full))),
          refl,
          refl,
          omega (
            arith,
            head-stored x (head r.map + 1 - r.capacity) (dropped r.map + 1) (omega arith),
          ),
          refl,
          ap₂ (λ q d. (q, d))
              (contents-stored r v x (head r.map + 1 - r.capacity) (dropped r.map + 1) l
                  (omega arith) (omega (arith, v.some_slots, v.ordered, full))
                  (omega (arith, v.ordered, full))
                ∙ ap (λ q. q ++ (x ∷ [])) (contents_full full))
              (dropped-stored x (head r.map + 1 - r.capacity) (dropped r.map + 1) (omega arith)),
        )
  write_full-Offered x false l h full =
      rw (write_refused r v x l full, length-contents r, full, not_less r.capacity)
        (v, refl, refl, omega arith, refl, refl)

  -- A write of a record of the right size has the outcome of an offer to the queue of the records
  -- that wait, and leaves that queue and that count of drops: with room the record is added, in a
  -- full ring it goes in for the oldest one, which is counted, or is refused. The head and the
  -- drops stay below 2^64.
  pub event_write_refines :
      (x : Bytes) (overwrite : Bool)
      → length x ≡ r.record_size
      → head r.map + dropped r.map + 2 < 2 ^ 64
      → Offered x overwrite (write x overwrite r).0 (write x overwrite r).1
  event_write_refines x overwrite l h = elim (ℕ_discrete (unread r) r.capacity) [
    | no e ↦ write_room-Offered x overwrite l h (omega (arith, v.fits, v.ordered))
    | yes e ↦ write_full-Offered x overwrite l h e
  ]

-- ===== src/TradeQueue/Waiting.antt =====
-- The waits of src/ipc/trade_queue.py: a push that waited under `BLOCK` is a push that does not
-- wait.
use infotact_python_project.Prelude.{
  true, false, if◌then◌else◌, List, [], ◌∷◌, ◌≡◌, refl, sym, ap, ◌∙◌, All, Bool-cases, inl, inr,
}
use infotact_python_project.TradeQueue.{
  Queue, TradeEvent, block, is_full, must_wait, wait_not_full, make_room, apply_policy, blocked,
  push, finish_push,
}

module _ {ℓ} {P : Type ℓ} where
  -- The other threads leave the policy alone; nothing in the source sets it again.
  abbrev pub KeepsBlock : (Queue P → Queue P) → Type ℓ
  KeepsBlock others = (q : Queue P) → q.backpressure ≡ block → (others q).backpressure ≡ block

  -- The queue when the waiting ends: room, closed, or the deadline.
  unfoldable pub settle : List (Queue P → Queue P) → Queue P → Queue P
  settle [] q = q
  settle (others ∷ later) q = if must_wait q then settle later (others q) else q

  wait_not_full_settled :
      (waits : List (Queue P → Queue P)) (q : Queue P)
      → wait_not_full waits q ≡ wait_not_full [] (settle waits q)
  unfolding wait_not_full settle
  wait_not_full_settled [] q = refl
  wait_not_full_settled (others ∷ later) q = elim (Bool-cases (must_wait q)) [
    | inl e ↦ rw e (wait_not_full_settled later (others q))
    | inr e ↦ rw (e, e)
  ]

  settle_block :
      (waits : List (Queue P → Queue P)) (q : Queue P)
      → All KeepsBlock waits
      → q.backpressure ≡ block
      → (settle waits q).backpressure ≡ block
  unfolding settle
  settle_block [] q keeps h = h
  settle_block (others ∷ later) q keeps h = elim (Bool-cases (must_wait q)) [
    | inl e ↦ rw e (settle_block later (others q) keeps.1 (keeps.0 q h))
    | inr e ↦ rw e h
  ]

  settled_now :
      (waits : List (Queue P → Queue P)) (q : Queue P) → must_wait q ≡ false → settle waits q ≡ q
  unfolding settle
  settled_now [] q h = refl
  settled_now (others ∷ later) q h = rw h refl

  -- Without waits the loop, its end and the test before it are the plain push.
  push_now :
      (event : TradeEvent P) (q : Queue P)
      → q.backpressure ≡ block
      → finish_push event (blocked (wait_not_full [] q)) ≡ push [] event q
  unfolding push make_room apply_policy wait_not_full blocked must_wait finish_push
  push_now event q h = elim (Bool-cases q.closed) [
    | inl e ↦ elim (Bool-cases (is_full q)) [ inl f ↦ simp (e, f) | inr f ↦ simp (e, f) ]
    | inr e ↦ elim (Bool-cases (is_full q)) [ inl f ↦ simp (e, f, h) | inr f ↦ simp (e, f) ]
  ]

  not_full : (q : Queue P) → is_full q ≡ false → must_wait q ≡ false
  unfolding must_wait
  not_full q h = rw h refl

  unneeded :
      (waits : List (Queue P → Queue P)) (event : TradeEvent P) (q : Queue P)
      → is_full q ≡ false
      → push waits event q ≡ push [] event q
  unfolding push make_room
  unneeded waits event q room = simp room

  waited :
      (waits : List (Queue P → Queue P)) (event : TradeEvent P) (q : Queue P)
      → q.backpressure ≡ block
      → q.closed ≡ false
      → is_full q ≡ true
      → push waits event q ≡ finish_push event (blocked (wait_not_full waits q))
  unfolding push make_room apply_policy
  waited waits event q h open_now full = simp (open_now, full, h)

  -- A push under `BLOCK` that waited has the outcome, and leaves the queue, of a push at the moment
  -- when its waiting ended: other threads make room or close the queue before it, or it times out.
  pub push_waited :
      (waits : List (Queue P → Queue P)) (event : TradeEvent P) (q : Queue P)
      → q.backpressure ≡ block
      → q.closed ≡ false
      → All KeepsBlock waits
      → push waits event q ≡ push [] event (settle waits q)
  push_waited waits event q h open_now keeps = elim (Bool-cases (is_full q)) [
    | inl full ↦
        waited waits event q h open_now full
        ∙ ap (λ r. finish_push event (blocked r)) (wait_not_full_settled waits q)
        ∙ push_now event (settle waits q) (settle_block waits q keeps h)
    | inr room ↦
        unneeded waits event q room
        ∙ ap (push [] event) (sym (settled_now waits q (not_full q room)))
  ]

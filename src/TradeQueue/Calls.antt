-- ===== src/TradeQueue/Calls.antt =====
-- Where the events of src/ipc/trade_queue.py go, over any sequence of calls: the calls of all
-- threads, in the order in which they get the lock.
use infotact_python_project.Prelude.{
  ℕ, ◌+◌, ◌-◌, Bool, true, false, not, ◌&&◌, if◌then◌else◌, Option, none, some, length, List, [],
  ◌∷◌, ◌++◌, map, take, ◌≡◌, refl, ap, ◌∙◌, sym, arith, Result, ok, err, append_assoc,
  length-append,
}
use infotact_python_project.TradeQueue.{
  Queue, TradeEvent, Error, BackpressurePolicy, drop_oldest, drop_newest, block, raise, is_full,
  push, pop_batch, pop_nowait, close, clear, subscribe, unsubscribe,
}

-- How an event leaves the queue.
pub data Fate : Type 0 where
  popped evicted cleared : Fate

abbrev pub is_popped : Fate → Bool
is_popped popped = true
is_popped evicted = false
is_popped cleared = false

abbrev pub is_evicted : Fate → Bool
is_evicted popped = false
is_evicted evicted = true
is_evicted cleared = false

abbrev pub evicts : BackpressurePolicy → Bool
evicts drop_oldest = true
evicts drop_newest = false
evicts block = false
evicts raise = false

-- A call, without the waits.
pub data Call {ℓ} (P : Type ℓ) : Type ℓ where
  pushes : TradeEvent P → Call P
  batches : ℕ → ℕ → Call P
  pops : ℕ → Call P
  closes clears : Call P
  subscribes unsubscribes : ℕ → Call P

module _ {ℓ} {P : Type ℓ} where
  unfoldable pub step : Call P → Queue P → Queue P
  step (pushes event) q = (push [] event q).1
  step (batches now_ns max_items) q = (pop_batch now_ns max_items false (λ r. r) q).1
  step (pops now_ns) q = (pop_nowait now_ns q).1
  step closes q = close q
  step clears q = clear q
  step (subscribes callback) q = subscribe callback q
  step (unsubscribes callback) q = unsubscribe callback q

  unfoldable pub run : List (Call P) → Queue P → Queue P
  run [] q = q
  run (c ∷ calls) q = run calls (step c q)

  -- The event that a push says it took.
  abbrev pub accepted : TradeEvent P → Result Error Bool → List (TradeEvent P)
  accepted event (ok true) = event ∷ []
  accepted event (ok false) = []
  accepted event (err e) = []

  abbrev pub returned : Option (TradeEvent P) → List (TradeEvent P)
  returned none = []
  returned (some event) = event ∷ []

  abbrev pub arrivals : Call P → Queue P → List (TradeEvent P)
  arrivals (pushes event) q = accepted event (push [] event q).0
  arrivals (batches now_ns max_items) q = []
  arrivals (pops now_ns) q = []
  arrivals closes q = []
  arrivals clears q = []
  arrivals (subscribes callback) q = []
  arrivals (unsubscribes callback) q = []

  abbrev pub fates : Fate → List (TradeEvent P) → List (Fate × TradeEvent P)
  fates fate = map (λ event. (fate, event))

  -- The events that a call takes out, in order: a pop those that it returns, a push into a full
  -- open queue the oldest one under `DROP_OLDEST`, `clear` all.
  abbrev pub departures : Call P → Queue P → List (Fate × TradeEvent P)
  departures (pushes event) q =
      if not q.closed && (is_full q && evicts q.backpressure)
      then fates evicted (take 1 q.queue)
      else []
  departures (batches now_ns max_items) q =
      fates popped (pop_batch now_ns max_items false (λ r. r) q).0
  departures (pops now_ns) q = fates popped (returned (pop_nowait now_ns q).0)
  departures closes q = []
  departures clears q = fates cleared q.queue
  departures (subscribes callback) q = []
  departures (unsubscribes callback) q = []

  -- The events that an open queue refuses.
  abbrev pub rejections : Call P → Queue P → ℕ
  rejections (pushes event) q =
      if q.closed then 0 else 1 - length (accepted event (push [] event q).0)
  rejections (batches now_ns max_items) q = 0
  rejections (pops now_ns) q = 0
  rejections closes q = 0
  rejections clears q = 0
  rejections (subscribes callback) q = 0
  rejections (unsubscribes callback) q = 0

  unfoldable pub how_many : (Fate → Bool) → List (Fate × TradeEvent P) → ℕ
  how_many test [] = 0
  how_many test (x ∷ rest) = (if test x.0 then 1 else 0) + how_many test rest

  abbrev pub events_of : List (Fate × TradeEvent P) → List (TradeEvent P)
  events_of = map (λ x. x.1)

  -- What becomes of `before` when `came` arrives, `left` departs and `refusals` events are refused.
  pub record Flows (before after : Queue P) (came : List (TradeEvent P))
      (left : List (Fate × TradeEvent P)) (refusals : ℕ) : Type ℓ where
    pub order : events_of left ++ after.queue ≡ before.queue ++ came
    pub pushed : after.total_pushed ≡ before.total_pushed + length came
    pub popped : after.total_popped ≡ before.total_popped + how_many is_popped left
    pub dropped : after.dropped_count ≡ before.dropped_count + (how_many is_evicted left + refusals)

  how_many-append :
      (test : Fate → Bool) (xs ys : List (Fate × TradeEvent P))
      → how_many test (xs ++ ys) ≡ how_many test xs + how_many test ys
  unfolding how_many
  how_many-append test [] ys = omega arith
  how_many-append test (x ∷ xs) ys = omega (arith, how_many-append test xs ys)

  map_append :
      (xs ys : List (Fate × TradeEvent P)) → events_of (xs ++ ys) ≡ events_of xs ++ events_of ys
  map_append [] ys = refl
  map_append (x ∷ xs) ys = ap (◌∷◌ x.1) (map_append xs ys)

  pub events_of-fates : (fate : Fate) (xs : List (TradeEvent P)) → events_of (fates fate xs) ≡ xs
  events_of-fates fate [] = refl
  events_of-fates fate (x ∷ xs) = ap (◌∷◌ x) (events_of-fates fate xs)

  pub how_many-fates :
      (test : Fate → Bool) (fate : Fate) (xs : List (TradeEvent P))
      → how_many test (fates fate xs) ≡ (if test fate then length xs else 0)
  unfolding how_many
  how_many-fates test fate [] = ground arith
  how_many-fates test fate (x ∷ xs) = ground (arith, how_many-fates test fate xs)

  pub Flows-then :
      (q r s : Queue P) (a b : List (TradeEvent P)) (xs ys : List (Fate × TradeEvent P)) (m n : ℕ)
      → Flows q r a xs m
      → Flows r s b ys n
      → Flows q s (a ++ b) (xs ++ ys) (m + n)
  Flows-then q r s a b xs ys m n f g = record {
    order =
        ap (λ zs. zs ++ s.queue) (map_append xs ys)
        ∙ append_assoc (events_of xs) (events_of ys) s.queue
        ∙ ap (λ zs. events_of xs ++ zs) g.order
        ∙ sym (append_assoc (events_of xs) r.queue b)
        ∙ ap (λ zs. zs ++ b) f.order
        ∙ append_assoc q.queue a b;
    pushed = omega (arith, f.pushed, g.pushed, length-append a b);
    popped = omega (arith, f.popped, g.popped, how_many-append is_popped xs ys);
    dropped = omega (arith, f.dropped, g.dropped, how_many-append is_evicted xs ys);
  }

-- ===== src/Consumer/Drain.antt =====
-- What a consumer (src/ipc/consumer.py) does with the records that wait.
use infotact_python_project.Prelude.{
  ℕ, zero, suc, ◌+◌, ◌-◌, ◌<◌, true, false, Option, none, some, List, [], ◌∷◌, map, length, take,
  drop, Result, ok, ◌≡◌, refl, ap, ◌∙◌, arith, Bool-cases, inl, inr,
}
use infotact_python_project.Bytes.{Bytes}
use infotact_python_project.Float.{PriceFormat}
use infotact_python_project.Processor
use infotact_python_project.Processor.{unpack_order}
use infotact_python_project.Engine.{add_order, add_orders}
use infotact_python_project.FileRing.{Ring, get, unpack_header}
use infotact_python_project.FileRing.Invariant.{IsValid}
use infotact_python_project.FileRing.Refine.{contents, get_refines, length-contents}
use infotact_python_project.FileRing.Fifo
use infotact_python_project.Consumer.{
  Consumer, Error, submitted, process_record, process_one, goes_on, drain_loop, drain,
}

module _ {ℓ} {P : Type ℓ} (f : PriceFormat P) where
  -- The records are, one by one, what unpacks into the orders.
  abbrev pub Unpack : List Bytes → List (Processor.Order P) → Type ℓ
  Unpack bs os = map (unpack_order f) bs ≡ map ok os

  -- The records and the orders up to the limit, if there is one.
  abbrev pub limit {κ} : {A : Type κ} → Option ℕ → List A → List A
  limit none xs = xs
  limit (some n) xs = take n xs

  -- How many orders a round may still add.
  abbrev left : Option ℕ → ℕ → Option ℕ
  left none processed = none
  left (some m) processed = some (m - processed)

  limit_left {κ} : {A : Type κ} (m : Option ℕ) (xs : List A) → limit (left m 0) xs ≡ limit m xs
  limit_left none xs = refl
  limit_left (some m) xs = ap (λ k. take k xs) {y = m} (omega arith)

  limit_nil {κ} : {A : Type κ} (l : Option ℕ) → limit {A = A} l [] ≡ []
  limit_nil none = refl
  limit_nil (some zero) = refl
  limit_nil (some (suc n)) = refl

  limit_stop {κ} :
      {A : Type κ} (m : Option ℕ) (processed : ℕ) (xs : List A)
      → goes_on f m processed ≡ false
      → limit (left m processed) xs ≡ []
  unfolding goes_on
  limit_stop none processed xs h = absurd (cc)
  limit_stop (some m) processed xs h = ap (λ k. take k xs) {y = 0} (ground arith)

  limit_more {κ} :
      {A : Type κ} (m : Option ℕ) (processed : ℕ) (x : A) (xs : List A)
      → goes_on f m processed ≡ true
      → limit (left m processed) (x ∷ xs) ≡ x ∷ limit (left m (suc processed)) xs
  unfolding goes_on
  limit_more none processed x xs h = refl
  limit_more (some m) processed x xs h =
      let one_more : m - processed ≡ suc (m - suc processed) = ground arith in
      ap (λ k. take k (x ∷ xs)) one_more

  process_one_empty :
      (c : Consumer P)
      → IsValid c.ring_buffer
      → contents c.ring_buffer ≡ []
      → process_one f c ≡ (ok false, record c { ring_buffer = (get c.ring_buffer).1 })
  unfolding process_one process_record Fifo.get
  process_one_empty c v e =
      let (v', same, q) = get_refines c.ring_buffer v in
      ap (λ p. process_record f c (p, (get c.ring_buffer).1)) (ap (λ p. p.0) (rw e at q))

  process_one_next :
      (c : Consumer P) (b : Bytes) (bs : List Bytes) (o : Processor.Order P)
      → IsValid c.ring_buffer
      → contents c.ring_buffer ≡ b ∷ bs
      → unpack_order f b ≡ ok o
      → process_one f c ≡ (
        ok true,
        record {
          ring_buffer = (get c.ring_buffer).1;
          engine = add_order ⦃o = f.order⦄ (submitted o) c.engine;
          processed_count = c.processed_count + 1;
        },
      )
  unfolding process_one process_record Fifo.get
  process_one_next c b bs o v e u =
      let (v', same, q) = get_refines c.ring_buffer v in
      ap (λ p. process_record f c (p, (get c.ring_buffer).1)) (ap (λ p. p.0) (rw e at q))
      ∙ rw (u, process_record)

  -- What the loop has done when it stops, started with the records of `bs` in the ring and with
  -- `os` the orders that it may take.
  record Drained (c : Consumer P) (processed : ℕ) (bs : List Bytes) (os : List (Processor.Order P))
      (out : Result Error ℕ × Consumer P) : Type ℓ where
    reply : out.0 ≡ ok (processed + length os)
    engine : out.1.engine ≡ add_orders ⦃o = f.order⦄ (map submitted os) c.engine
    count : out.1.processed_count ≡ c.processed_count + length os
    valid : IsValid out.1.ring_buffer
    rest : contents out.1.ring_buffer ≡ drop (length os) bs

  Drained-none :
      (c : Consumer P) (processed : ℕ) (bs : List Bytes) (r : Ring)
      → IsValid r
      → contents r ≡ bs
      → Drained c processed bs [] (ok processed, record c { ring_buffer = r })
  unfolding add_orders
  Drained-none c processed bs r v e = record {
    reply = ap ok (omega arith);
    engine = refl;
    count = omega arith;
    valid = v;
    rest = e;
  }

  Drained-more :
      (c c' : Consumer P) (processed : ℕ) (b : Bytes) (bs : List Bytes) (o : Processor.Order P)
      (os : List (Processor.Order P)) (out : Result Error ℕ × Consumer P)
      → c'.engine ≡ add_order ⦃o = f.order⦄ (submitted o) c.engine
      → c'.processed_count ≡ c.processed_count + 1
      → Drained c' (suc processed) bs os out
      → Drained c processed (b ∷ bs) (o ∷ os) out
  unfolding add_orders
  Drained-more c c' processed b bs o os out e n d = record {
    reply = d.reply ∙ ap ok (omega arith);
    engine = d.engine ∙ ap (add_orders ⦃o = f.order⦄ (map submitted os)) e;
    count = omega (arith, d.count);
    valid = d.valid;
    rest = d.rest;
  }

  get_next :
      (r : Ring) (b : Bytes) (bs : List Bytes)
      → IsValid r
      → contents r ≡ b ∷ bs
      → IsValid (get r).1 × (contents (get r).1 ≡ bs)
  unfolding Fifo.get
  get_next r b bs v e = let (v', same, q) = get_refines r v in (v', ap (λ p. p.1) (rw e at q))

  get_last :
      (r : Ring) → IsValid r → contents r ≡ [] → IsValid (get r).1 × (contents (get r).1 ≡ [])
  unfolding Fifo.get
  get_last r v e = let (v', same, q) = get_refines r v in (v', ap (λ p. p.1) (rw e at q))

  drain_loop_next :
      (n : ℕ) (m : Option ℕ) (processed : ℕ) (c c' : Consumer P)
      → goes_on f m processed ≡ true
      → process_one f c ≡ (ok true, c')
      → drain_loop f (suc n) m processed c ≡ drain_loop f n m (suc processed) c'
  unfolding drain_loop
  drain_loop_next n m processed c c' go e =
      rw (go, e, drain_loop) (ap (λ p. drain_loop f n m (suc processed) p.1) e)

  drain_loop_empty :
      (n : ℕ) (m : Option ℕ) (processed : ℕ) (c c' : Consumer P)
      → goes_on f m processed ≡ true
      → process_one f c ≡ (ok false, c')
      → drain_loop f (suc n) m processed c ≡ (ok processed, c')
  unfolding drain_loop
  drain_loop_empty n m processed c c' go e =
      rw (go, e, drain_loop) (ap (λ p. (ok processed, p.1)) e)

  drain_loop_limit :
      (n : ℕ) (m : Option ℕ) (processed : ℕ) (c : Consumer P)
      → goes_on f m processed ≡ false
      → drain_loop f n m processed c ≡ (ok processed, c)
  unfolding drain_loop
  drain_loop_limit zero m processed c stop = refl
  drain_loop_limit (suc n) m processed c stop = rw (stop, drain_loop)

  drain_loop-Drained :
      (n : ℕ) (m : Option ℕ) (processed : ℕ) (c : Consumer P) (bs : List Bytes)
      (os : List (Processor.Order P))
      → length bs < n
      → IsValid c.ring_buffer
      → contents c.ring_buffer ≡ bs
      → Unpack bs os
      → Drained c processed bs (limit (left m processed) os) (drain_loop f n m processed c)
  drain_loop-Drained zero m processed c bs os h v e u = absurd (omega arith)
  drain_loop-Drained (suc n) m processed c [] [] h v e u =
      rw (limit_nil {A = Processor.Order P} (left m processed))
        elim (Bool-cases (goes_on f m processed)) [
          | inr stop ↦
              rw (drain_loop_limit (suc n) m processed c stop)
                (Drained-none c processed [] c.ring_buffer v e)
          | inl go ↦
              let (v', e') = get_last c.ring_buffer v e in
              rw (drain_loop_empty n m processed c _ go (process_one_empty c v e))
                (Drained-none c processed [] (get c.ring_buffer).1 v' e')
        ]
  drain_loop-Drained (suc n) m processed c [] (o ∷ os) h v e u = absurd (cc)
  drain_loop-Drained (suc n) m processed c (b ∷ bs) [] h v e u = absurd (cc)
  drain_loop-Drained (suc n) m processed c (b ∷ bs) (o ∷ os) h v e u =
      elim (Bool-cases (goes_on f m processed)) [
        | inr stop ↦
            rw (drain_loop_limit (suc n) m processed c stop, limit_stop m processed (o ∷ os) stop)
              (Drained-none c processed (b ∷ bs) c.ring_buffer v e)
        | inl go ↦
            let next = process_one_next c b bs o v e (cc) in
            let (v', e') = get_next c.ring_buffer b bs v e in
            rw (drain_loop_next n m processed c _ go next, limit_more m processed o os go)
              (Drained-more c _ processed b bs o (limit (left m (suc processed)) os) _ refl refl
                (drain_loop-Drained n m (suc processed) _ bs os (omega arith) v' e' (cc)))
      ]

  -- A consumer of a well-formed ring, whose waiting records unpack into `os`: `drain` submits to
  -- the engine the first of these orders up to the limit, in their order, returns their number and
  -- counts them, and leaves in the ring just the records behind them.
  pub drain_lem :
      (m : Option ℕ) (c : Consumer P) (os : List (Processor.Order P))
      → IsValid c.ring_buffer
      → Unpack (contents c.ring_buffer) os
      → let taken = limit m os in
        let (reply, c') = drain f m c in
        (reply ≡ ok (length taken))
        × (c'.engine ≡ add_orders ⦃o = f.order⦄ (map submitted taken) c.engine)
        × (c'.processed_count ≡ c.processed_count + length taken)
        × IsValid c'.ring_buffer
        × (contents c'.ring_buffer ≡ drop (length taken) (contents c.ring_buffer))
  unfolding drain
  drain_lem m c os v u = (d.reply ∙ ap ok (omega arith), d.engine, d.count, d.valid, d.rest)
    where
      d :
          Drained c 0
            (contents c.ring_buffer)
            (limit m os)
            (drain_loop f (suc (unpack_header c.ring_buffer.map).count) m 0 c)
      d = rw (limit_left m os) at (
          drain_loop-Drained (suc (unpack_header c.ring_buffer.map).count) m 0 c
            (contents c.ring_buffer) os (omega (arith, length-contents c.ring_buffer)) v refl u)

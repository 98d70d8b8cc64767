-- ===== src/Processor/Batch.antt =====
-- `process_orders` (src/data_processing/processor.py): what a batch that returns has done.
use infotact_python_project.Prelude.{
  ◌+◌, none, List, [], ◌∷◌, map, length, Result, ok, err, ℤ, ◌≡◌, refl, sym, ap, ap₂, ◌∙◌, arith,
  ok-injective,
}
use infotact_python_project.Bytes.{Bytes}
use infotact_python_project.Float.{PriceFormat}
use infotact_python_project.Processor.{
  Error, Processor, Request, collect, unpack_order, process_order, process_orders,
}
use infotact_python_project.Processor.Create.{created}
use infotact_python_project.Processor.Format.{unpack_order-process_order}

-- A batch that returns is a first order that was packed, and a rest that returns.
collect_inv :
    (first : Result Error Bytes × Processor) (later : Result Error (List Bytes) × Processor)
    (bss : List Bytes) (q : Processor)
    → collect first later ≡ (ok bss, q)
    → (b : Bytes) × (rest : List Bytes) × (first.0 ≡ ok b)
      × (later ≡ (ok rest, q))
      × (bss ≡ b ∷ rest)
unfolding collect
collect_inv (err e, p) later bss q h = absurd (cc)
collect_inv (ok b, p) (err e, p') bss q h = absurd (cc)
collect_inv (ok b, p) (ok rest, p') bss q h = (
  b,
  rest,
  refl,
  ap (λ s. (ok rest, s)) (ap (λ t. t.1) h),
  sym (ok-injective _ _ (ap (λ t. t.0) h)),
)

module _ {ℓ} {P : Type ℓ} (f : PriceFormat P) where
  -- If a batch returns, the records unpack to its orders, each with its side in upper case and its
  -- clock reading, in order, and the counter has moved on by one for each.
  pub process_orders_lem :
      (orders : List (Request P × ℤ)) (p q : Processor) (bss : List Bytes)
      → process_orders f orders p ≡ (ok bss, q)
      → (map (unpack_order f) bss ≡ map (λ r. ok (created f r.0 none r.1)) orders)
        × (q.processed_count ≡ p.processed_count + length orders)
  unfolding process_orders
  process_orders_lem [] p q bss h = (
    ap (map (unpack_order f)) {y = []} (sym (ok-injective _ _ (ap (λ t. t.0) h))),
    omega (arith, ap (λ t. t.1.processed_count) h),
  )
  process_orders_lem ((r, now) ∷ orders) p q bss h =
      let (b, rest, first, later, e) = collect_inv (process_order f r now p) _ bss q h in
      let (a, l, back, one) =
        unpack_order-process_order f r now p (process_order f r now p).1 b
          (ap (λ t. (t, (process_order f r now p).1)) first) in
      let (backs, count) = process_orders_lem orders (process_order f r now p).1 q rest later in
      (ap (map (unpack_order f)) e ∙ ap₂ ◌∷◌ back backs, omega (arith, one, count))

-- ===== src/Compiled/Batch.antt =====
-- `add_orders_batch` of src/engine/matching_engine.pyx: what a batch of good orders does, and a
-- batch with a bad one among them.
use infotact_python_project.Prelude.{
  ℕ, zero, suc, ◌+◌, ◌^◌, ◌<◌, Bool, true, false, not, ◌&&◌, ◌||◌, ◌==◌, Option, none, some, List,
  [], ◌∷◌, ◌++◌, append-nil, length, map, All, Result, ok, err, ◌≡◌, refl, sym, ap, ◌∙◌, arith,
}
use infotact_python_project.Float.{PriceOrder}
use infotact_python_project.Engine
use infotact_python_project.Engine.{Order, Engine, buy, sell, init}
use infotact_python_project.Compiled.{
  MatchingEngine, Error, value_error, new_engine, accept, add_order, add_orders_batch, then_batch,
  count_processed,
}
use infotact_python_project.Compiled.Matched.{Agrees, accept-Agrees}

-- The count of a batch, `n` orders further on.
unfoldable pub counted {ℓ} :
    {P : Type ℓ} → ℕ → Result Error ℕ × MatchingEngine P → Result Error ℕ × MatchingEngine P
counted zero r = r
counted (suc n) r = count_processed (counted n r)

counted_ok {ℓ} : {P : Type ℓ} (n : ℕ) (e : MatchingEngine P) → counted n (ok 0, e) ≡ (ok n, e)
unfolding counted count_processed
counted_ok zero e = refl
counted_ok (suc n) e = ap count_processed (counted_ok n e) ∙ ap (λ k. (ok k, e)) (omega arith)

counted_err {ℓ} :
    {P : Type ℓ} (n : ℕ) (x : Error) (e : MatchingEngine P) → counted n (err x, e) ≡ (err x, e)
unfolding counted count_processed
counted_err zero x e = refl
counted_err (suc n) x e = ap count_processed (counted_err n x e)

module _ {ℓ} {P : Type ℓ} ⦃o : PriceOrder P⦄ where
  accept_all : List (Order P) → MatchingEngine P → MatchingEngine P
  accept_all [] e = e
  accept_all (order ∷ orders) e = accept_all orders (accept order e)

  accept_all-Agrees :
      (orders : List (Order P)) (c : MatchingEngine P) (e : Engine P)
      → Agrees c e
      → Agrees (accept_all orders c) (Engine.add_orders orders e)
  unfolding accept_all Engine.add_orders
  accept_all-Agrees [] c e a = a
  accept_all-Agrees (order ∷ orders) c e a =
      accept_all-Agrees orders (accept order c) (Engine.add_order order e)
        (accept-Agrees order c e a)

  new-Agrees : Agrees (new_engine P) (init P)
  unfolding new_engine init Engine.sort
  new-Agrees = record { same_count = refl; same_buys = refl; same_sells = refl; same_trades = refl }

  accept_counts :
      (order : Order P) (c : MatchingEngine P) → (accept order c).order_count ≡ c.order_count + 1
  unfolding accept
  accept_counts order c = refl

  module _ (zero_price : P) (is_finite : P → Bool) where
    -- A proper side, a finite price above zero, and a quantity.
    unfoldable pub is_acceptable : Order P → Bool
    is_acceptable order =
        (order.side == buy || order.side == sell)
        && (is_finite order.price
            && (not (o.le order.price zero_price) && not (order.quantity == 0)))

    add_order_accepts :
        (order : Order P) (c : MatchingEngine P)
        → is_acceptable order ≡ true
        → c.order_count + 1 < 2 ^ 64
        → add_order zero_price is_finite order c ≡ (ok order.order_id, accept order c)
    unfolding add_order is_acceptable
    add_order_accepts order c h k = ground arith

    add_order_rejects :
        (order : Order P) (c : MatchingEngine P)
        → is_acceptable order ≡ false
        → add_order zero_price is_finite order c ≡ (err value_error, c)
    unfolding add_order is_acceptable
    add_order_rejects order c h = ground arith

    batch_goes_on :
        (orders : List (Order P)) (later : List (Option (Order P))) (c : MatchingEngine P)
        → All (λ order. is_acceptable order ≡ true) orders
        → c.order_count + length orders < 2 ^ 64
        → add_orders_batch zero_price is_finite (map some orders ++ later) c
          ≡ counted
              (length orders)
              (add_orders_batch zero_price is_finite later (accept_all orders c))
    unfolding add_orders_batch accept_all counted then_batch
    batch_goes_on [] later c good room = refl
    batch_goes_on (order ∷ orders) later c good room =
        ap (λ r. then_batch r (add_orders_batch zero_price is_finite (map some orders ++ later)))
          (add_order_accepts order c good.0 (omega arith))
        ∙ ap count_processed (
            batch_goes_on orders later (accept order c) good.1
              (omega (arith, accept_counts order c, room)))

    -- A batch of acceptable orders, on the new compiled engine and on the reference one: both
    -- make the same trades in the same order, they count the same, and each side of the compiled
    -- book is that of the reference, sorted by price, time and arrival. All are processed. There
    -- are fewer than 2^64 orders.
    pub compiled_equivalent :
        (orders : List (Order P))
        → All (λ order. is_acceptable order ≡ true) orders
        → length orders < 2 ^ 64
        → let r = add_orders_batch zero_price is_finite (map some orders) (new_engine P) in
          (r.0 ≡ ok (length orders)) × Agrees r.1 (Engine.add_orders orders (init P))
    unfolding new_engine add_orders_batch
    compiled_equivalent orders good room =
        let e =
          ap (λ items. add_orders_batch zero_price is_finite items (new_engine P))
            (sym (append-nil (map some orders)))
          ∙ batch_goes_on orders [] (new_engine P) good (omega (arith, room))
          ∙ counted_ok (length orders) (accept_all orders (new_engine P)) in
        rw e (refl, accept_all-Agrees orders (new_engine P) (init P) new-Agrees)

    abbrev pub IsRejected : Option (Order P) → Type 0
    IsRejected none = Unit
    IsRejected (some order) = is_acceptable order ≡ false

    stops_at :
        (item : Option (Order P)) (later : List (Option (Order P))) (c : MatchingEngine P)
        → IsRejected item
        → add_orders_batch zero_price is_finite (item ∷ later) c ≡ (err value_error, c)
    unfolding add_orders_batch then_batch
    stops_at none later c bad = refl
    stops_at (some order) later c bad =
        ap (λ r. then_batch r (add_orders_batch zero_price is_finite later))
          (add_order_rejects order c bad)

    -- A batch with a bad item, which has a wrong number of values or is no acceptable order,
    -- raises, and is not taken back: the acceptable orders before the item stay in the book, as
    -- if the batch had ended there, and the items behind it are never looked at. There are fewer
    -- than 2^64 orders.
    pub batch_stops :
        (orders : List (Order P)) (item : Option (Order P)) (later : List (Option (Order P)))
        → All (λ order. is_acceptable order ≡ true) orders
        → length orders < 2 ^ 64
        → IsRejected item
        → let r =
            add_orders_batch zero_price is_finite
              (map some orders ++ (item ∷ later))
              (new_engine P) in
          (r.0 ≡ err value_error) × Agrees r.1 (Engine.add_orders orders (init P))
    unfolding new_engine
    batch_stops orders item later good room bad =
        let e =
          batch_goes_on orders (item ∷ later) (new_engine P) good (omega (arith, room))
          ∙ ap (counted (length orders))
              (stops_at item later (accept_all orders (new_engine P)) bad)
          ∙ counted_err (length orders) value_error (accept_all orders (new_engine P)) in
        rw e (refl, accept_all-Agrees orders (new_engine P) (init P) new-Agrees)

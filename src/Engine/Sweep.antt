-- ===== src/Engine/Sweep.antt =====
-- The matching loop of src/engine/matching_engine.py against a structural description of its run.
use infotact_python_project.Prelude.{
  ℕ, zero, suc, ◌+◌, ◌-◌, ◌≤◌, ◌<◌, min, Bool, true, false, if◌then◌else◌, leb, List, [], ◌∷◌, ◌++◌,
  append-nil, append_assoc, length, ◌≡◌, refl, arith, Bool-cases, inl, inr,
}
use infotact_python_project.Engine.{Order, Trade, Matching, crosses, match_best, match_loop}
use native.Mathlib.Decide.{dec_le}

module _ {ℓ} {P : Type ℓ} (le : P → P → Bool) (trade : Order P → Order P → ℕ → Trade P) where
  -- One walk down the book; `trades` holds the new trades only.
  unfoldable pub sweep : Order P → List (Order P) → Matching P
  sweep order [] = record { order = order; book = []; trades = [] }
  sweep order (best ∷ rest) =
      let later = sweep (record order { quantity = order.quantity - best.quantity }) rest in
      if crosses le order (best ∷ rest)
      then (if leb best.quantity order.quantity
          then record later { trades = trade order best best.quantity ∷ later.trades }
          else record {
            order = record order { quantity = 0 };
            book = record best { quantity = best.quantity - order.quantity } ∷ rest;
            trades = trade order best order.quantity ∷ [];
          })
      else record { order = order; book = best ∷ rest; trades = [] }

  match_loop_done :
      (n : ℕ) (order : Order P) (book : List (Order P)) (ts : List (Trade P))
      → crosses le order book ≡ false
      → match_loop le trade n (record { order = order; book = book; trades = ts })
        ≡ record { order = order; book = book; trades = ts }
  unfolding match_loop
  match_loop_done zero order book ts h = refl
  match_loop_done (suc n) order book ts h = rw (h, match_loop)

  -- After a partial fill of the resting order nothing is left of the incoming one.
  crosses_empty :
      (order : Order P) (book : List (Order P)) → order.quantity ≡ 0 → crosses le order book ≡ false
  unfolding crosses
  crosses_empty order [] h = refl
  crosses_empty order (b ∷ book) h = ground arith

  crosses_nil : (order : Order P) → crosses le order [] ≡ false
  unfolding crosses
  crosses_nil order = refl

  match_loop_step :
      (n : ℕ) (order best : Order P) (rest : List (Order P)) (ts : List (Trade P))
      → crosses le order (best ∷ rest) ≡ true
      → match_loop le trade (suc n) (record { order = order; book = best ∷ rest; trades = ts })
        ≡ match_loop le trade n (match_best le trade order (best ∷ rest) ts)
  unfolding match_loop
  match_loop_step n order best rest ts h = rw (h, match_loop)

  match_best_whole :
      (order best : Order P) (rest : List (Order P)) (ts : List (Trade P))
      → best.quantity ≤ order.quantity
      → match_best le trade order (best ∷ rest) ts ≡ record {
        order = record order { quantity = order.quantity - best.quantity };
        book = rest;
        trades = ts ++ (trade order best best.quantity ∷ []);
      }
  unfolding match_best
  match_best_whole order best rest ts h =
      let e : min order.quantity best.quantity ≡ best.quantity = omega arith in rw e (ground arith)

  match_best_part :
      (order best : Order P) (rest : List (Order P)) (ts : List (Trade P))
      → order.quantity < best.quantity
      → match_best le trade order (best ∷ rest) ts ≡ record {
        order = record order { quantity = 0 };
        book = record best { quantity = best.quantity - order.quantity } ∷ rest;
        trades = ts ++ (trade order best order.quantity ∷ []);
      }
  unfolding match_best
  match_best_part order best rest ts h =
      let e : min order.quantity best.quantity ≡ order.quantity = omega arith in rw e (ground arith)

  -- With fuel beyond the length of the book the loop ends by its own test, in the state that
  -- the walk describes.
  pub match_loop-eq-sweep :
      (n : ℕ) (order : Order P) (book : List (Order P)) (ts : List (Trade P))
      → length book < n
      → match_loop le trade n (record { order = order; book = book; trades = ts })
        ≡ record (sweep order book) { trades = ts ++ (sweep order book).trades }
  unfolding sweep
  match_loop-eq-sweep zero order book ts h = absurd (omega arith)
  match_loop-eq-sweep (suc n) order [] ts h =
      rw (append-nil ts) (match_loop_done (suc n) order [] ts (crosses_nil order))
  match_loop-eq-sweep (suc n) order (best ∷ rest) ts h =
      elim (Bool-cases (crosses le order (best ∷ rest))) [
        | inr stop ↦ rw (stop, append-nil ts) (match_loop_done (suc n) order (best ∷ rest) ts stop)
        | inl go ↦
            rw (match_loop_step n order best rest ts go, go)
              elim (dec_le best.quantity order.quantity) [
                | yes whole ↦ rw (match_best_whole order best rest ts whole) (
                    ground (
                      arith,
                      match_loop-eq-sweep n
                          (record order { quantity = order.quantity - best.quantity }) rest
                          (ts ++ (trade order best best.quantity ∷ [])),
                      append_assoc ts (trade order best best.quantity ∷ [])
                          (sweep (record order { quantity = order.quantity - best.quantity })
                            rest).trades,
                    ))
                | no part ↦ rw (match_best_part order best rest ts (omega arith)) (
                    ground (
                      arith,
                      match_loop_done n (record order { quantity = 0 })
                          (record best { quantity = best.quantity - order.quantity } ∷ rest)
                          (ts ++ (trade order best order.quantity ∷ [])),
                      crosses_empty (record order { quantity = 0 })
                          (record best { quantity = best.quantity - order.quantity } ∷ rest),
                    ))
              ]
      ]

  sweep_done :
      (order : Order P) (book : List (Order P))
      → crosses le (sweep order book).order (sweep order book).book ≡ false
  unfolding sweep
  sweep_done order [] = crosses_nil order
  sweep_done order (best ∷ rest) = ground (
    arith,
    crosses_empty (record order { quantity = 0 })
        (record best { quantity = best.quantity - order.quantity } ∷ rest),
    sweep_done (record order { quantity = order.quantity - best.quantity }) rest,
  )

  -- The loop always ends, by its own test: with any fuel beyond the length of the book it stops
  -- where the test fails, and more fuel changes nothing.
  pub match_loop_ends :
      (n k : ℕ) (m : Matching P)
      → length m.book < n
      → (crosses le (match_loop le trade n m).order (match_loop le trade n m).book ≡ false)
        × (match_loop le trade (n + k) m ≡ match_loop le trade n m)
  match_loop_ends n k m h =
      rw
        (
          match_loop-eq-sweep n m.order m.book m.trades h,
          match_loop-eq-sweep (n + k) m.order m.book m.trades (omega arith),
        )
        (sweep_done m.order m.book, refl)

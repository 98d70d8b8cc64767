-- ===== src/Engine/Fills.antt =====
-- What one walk down the sorted book (the loop of `_match_buy` and `_match_sell` in
-- src/engine/matching_engine.py) does to the shares, the prices and the queue of resting orders.
use infotact_python_project.Prelude.{
  ℕ, ◌+◌, ◌-◌, ◌<◌, Bool, true, false, List, [], ◌∷◌, ◌++◌, map, length, take, All, All-map, ◌≡◌,
  refl, ◌∙◌, arith, Bool-cases, inl, inr, ◌⊎◌, leb, ltb, ◌&&◌,
}
use infotact_python_project.Float.{PriceOrder}
use infotact_python_project.Engine.{Order, Trade, crosses}
use infotact_python_project.Engine.Sorting.{total, IsSorted, key_lt-le, key_lt_price}
use infotact_python_project.Engine.Sweep.{sweep}

-- The shares that a list of trades moves.
unfoldable pub volume {ℓ} : {P : Type ℓ} → List (Trade P) → ℕ
volume [] = 0
volume (t ∷ ts) = t.qty + volume ts

pub volume-nil {ℓ} : (P : Type ℓ) → volume {P = P} [] ≡ 0
unfolding volume
volume-nil P = refl

pub volume-append {ℓ} :
    {P : Type ℓ} (ts us : List (Trade P)) → volume (ts ++ us) ≡ volume ts + volume us
unfolding volume
volume-append [] us = omega arith
volume-append (t ∷ ts) us = omega (arith, volume-append ts us)

pub total-append {ℓ} :
    {P : Type ℓ} (xs ys : List (Order P)) → total (xs ++ ys) ≡ total xs + total ys
unfolding total
total-append [] ys = omega arith
total-append (x ∷ xs) ys = omega (arith, total-append xs ys)

abbrev pub IsLive {ℓ} : {P : Type ℓ} → Order P → Type 0
IsLive b = 0 < b.quantity

module _ {ℓ} {P : Type ℓ} (le : P → P → Bool) (trade : Order P → Order P → ℕ → Trade P) where
  -- Only the quantity of the incoming order changes.
  pub sweep_order :
      (order : Order P) (book : List (Order P))
      → (sweep le trade order book).order
        ≡ record order { quantity = (sweep le trade order book).order.quantity }
  unfolding sweep
  sweep_order order [] = refl
  sweep_order order (best ∷ rest) =
      ground (arith, sweep_order (record order { quantity = order.quantity - best.quantity }) rest)

  pub sweep-shares :
      ((a b : Order P) (n : ℕ) → (trade a b n).qty ≡ n)
      → (order : Order P) (book : List (Order P))
      → (total book
          ≡ total (sweep le trade order book).book + volume (sweep le trade order book).trades)
        × (order.quantity
            ≡ (sweep le trade order book).order.quantity
              + volume (sweep le trade order book).trades)
  unfolding sweep total volume
  sweep-shares tq order [] = omega arith
  sweep-shares tq order (best ∷ rest) = ground (
    arith,
    tq order best best.quantity,
    tq order best order.quantity,
    sweep-shares tq (record order { quantity = order.quantity - best.quantity }) rest,
  )

  -- A property of the price alone holds of what is left if it held of the book.
  pub sweep-All {κ} :
      (R : P → Type κ) (order : Order P) (book : List (Order P))
      → All (λ b. R b.price) book
      → All (λ b. R b.price) (sweep le trade order book).book
  unfolding sweep
  sweep-All R order [] h = tt
  sweep-All R order (best ∷ rest) h = elim (Bool-cases (crosses le order (best ∷ rest))) [
    | inr stop ↦ rw stop h
    | inl go ↦ rw go elim (Bool-cases (leb best.quantity order.quantity)) [
      | inl whole ↦
          rw whole
            (sweep-All R (record order { quantity = order.quantity - best.quantity }) rest h.1)
      | inr part ↦ rw part h
    ]
  ]

  pub sweep-IsLive :
      (order : Order P) (book : List (Order P))
      → All IsLive book
      → All IsLive (sweep le trade order book).book
  unfolding sweep
  sweep-IsLive order [] h = tt
  sweep-IsLive order (best ∷ rest) h =
      ground
        (arith, sweep-IsLive (record order { quantity = order.quantity - best.quantity }) rest h.1)

  -- The new trades are for live quantities, at prices that the incoming order accepts.
  pub sweep-trades {κ} :
      (Good : Trade P → Type κ) (order : Order P) (book : List (Order P))
      → ((q : ℕ) (b : Order P) (n : ℕ)
          → 0 < n
          → le b.price order.price ≡ true
          → Good (trade (record order { quantity = q }) b n))
      → All IsLive book
      → All Good (sweep le trade order book).trades
  unfolding sweep crosses
  sweep-trades Good order [] good h = tt
  sweep-trades Good order (best ∷ rest) good h =
      elim (Bool-cases (ltb 0 order.quantity && le best.price order.price)) [
        | inr stop ↦ rw stop tt
        | inl go ↦ rw go elim (Bool-cases (leb best.quantity order.quantity)) [
          | inl whole ↦ rw whole (
            good order.quantity best best.quantity h.0 (ground arith),
            sweep-trades Good (record order { quantity = order.quantity - best.quantity }) rest good
                h.1,
          )
          | inr part ↦
              rw part (good order.quantity best order.quantity (ground arith) (ground arith), tt)
        ]
      ]

  -- The makers of the new trades, in the order of the trades, are the front of the book.
  pub sweep-makers {κ} :
      {K : Type κ} (maker : Trade P → K) (key : Order P → K)
      → ((a b : Order P) (n : ℕ) → maker (trade a b n) ≡ key b)
      → (order : Order P) (book : List (Order P))
      → map maker (sweep le trade order book).trades
        ≡ map key (take (length (sweep le trade order book).trades) book)
  unfolding sweep
  sweep-makers maker key mk order [] = refl
  sweep-makers maker key mk order (best ∷ rest) = ground (
    arith,
    mk order best best.quantity,
    mk order best order.quantity,
    sweep-makers maker key mk (record order { quantity = order.quantity - best.quantity }) rest,
  )

module _ {ℓ} {P : Type ℓ} (o : PriceOrder P) (trade : Order P → Order P → ℕ → Trade P) where
  behind_worse :
      (order best : Order P) (rest : List (Order P))
      → o.le best.price order.price ≡ false
      → IsSorted o.le (best ∷ rest)
      → All (λ b. o.le b.price order.price ≡ false) (best ∷ rest)
  behind_worse order best rest h s =
      (h, All-map _ _ rest (λ b k. worse b (key_lt-le o best b k)) s.0)
    where
      worse : (b : Order P) → o.le best.price b.price ≡ true → o.le b.price order.price ≡ false
      worse b k = ground (arith, o.le_trans best.price b.price order.price k)

  -- The walk over a sorted book ends with the incoming order used up, or at prices that it does
  -- not accept.
  pub sweep_stops :
      (order : Order P) (book : List (Order P))
      → IsSorted o.le book
      → ((sweep o.le trade order book).order.quantity ≡ 0)
        ⊎ All (λ b. o.le b.price order.price ≡ false) (sweep o.le trade order book).book
  unfolding sweep crosses
  sweep_stops order [] s = inr tt
  sweep_stops order (best ∷ rest) s = elim (Bool-cases (ltb 0 order.quantity)) [
    | inr spent ↦ rw spent (inl (ground arith))
    | inl more ↦ elim (Bool-cases (o.le best.price order.price)) [
      | inr dear ↦ rw (more, dear) (inr (behind_worse order best rest dear s))
      | inl good ↦
          rw (more, good)
            elim (Bool-cases (leb best.quantity order.quantity)) [
              | inl whole ↦ rw whole (
                  sweep_stops (record order { quantity = order.quantity - best.quantity }) rest s.1)
              | inr part ↦ rw part (inl refl)
            ]
    ]
  ]

  -- What is left of a sorted book is sorted.
  pub sweep-IsSorted :
      (order : Order P) (book : List (Order P))
      → IsSorted o.le book
      → IsSorted o.le (sweep o.le trade order book).book
  unfolding sweep
  sweep-IsSorted order [] s = tt
  sweep-IsSorted order (best ∷ rest) s = elim (Bool-cases (crosses o.le order (best ∷ rest))) [
    | inr stop ↦ rw stop s
    | inl go ↦ rw go elim (Bool-cases (leb best.quantity order.quantity)) [
      | inl whole ↦
          rw whole
            (sweep-IsSorted (record order { quantity = order.quantity - best.quantity }) rest s.1)
      | inr part ↦ rw part (
        All-map _ _ rest (λ b h. key_lt_price o.le b best (best.quantity - order.quantity) ∙ h) s.0,
        s.1,
      )
    ]
  ]

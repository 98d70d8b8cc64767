-- ===== src/Compiled/Walk.antt =====
-- A loop of `get_book_depth` (src/engine/matching_engine.pyx) over a sorted side against a
-- dictionary of the prices there.
use infotact_python_project.Prelude.{
  ℕ, zero, suc, ◌+◌, ◌%◌, ◌^◌, ◌<◌, ◌≤◌, true, false, ◌&&◌, leb, none, some, List, [], ◌∷◌, ◌++◌,
  append_assoc, length, length-append, take, All, All-map, ◌≡◌, refl, sym, ap, ◌∙◌, arith,
  Bool-cases, inl, inr, Ascends,
}
use infotact_python_project.Float.{PriceOrder, same_price}
use infotact_python_project.Engine.{Order, key_lt}
use infotact_python_project.Engine.Sorting.{IsSorted, total, key_lt-le}
use infotact_python_project.Metrics.{add_depth, depth_from}
use infotact_python_project.Compiled.Depth.{
  begin_level, close_level, count_order, count_orders, side_levels,
}

take_whole {ℓ} : {A : Type ℓ} → (xs ys : List A) → take (length xs) (xs ++ ys) ≡ xs
take_whole [] ys = refl
take_whole (x ∷ xs) ys = ap (λ r. x ∷ r) (take_whole xs ys)

take_all {ℓ} : {A : Type ℓ} → (n : ℕ) (xs : List A) → length xs ≤ n → take n xs ≡ xs
take_all zero [] h = refl
take_all zero (x ∷ xs) h = absurd (omega arith)
take_all (suc n) [] h = refl
take_all (suc n) (x ∷ xs) h = ap (λ r. x ∷ r) (take_all n xs (omega arith))

pub no_wrap : (n : ℕ) → n < 2 ^ 64 → n % 2 ^ 64 ≡ n
no_wrap n h = omega (arith, h)

module _ {ℓ} {P : Type ℓ} ⦃o : PriceOrder P⦄ where
  -- No order is at the price `p`.
  abbrev IsApart : P → List (Order P) → Type 0
  IsApart p orders = All (λ b. same_price p b.price ≡ false) orders

  depth_from-apart_first :
      (p : P) (q : ℕ) (depth : List (P × ℕ)) (orders : List (Order P))
      → IsApart p orders
      → depth_from ((p, q) ∷ depth) orders ≡ (p, q) ∷ depth_from depth orders
  unfolding depth_from add_depth
  depth_from-apart_first p q depth [] h = refl
  depth_from-apart_first p q depth (order ∷ orders) h =
      rw (h.0) (depth_from-apart_first p q (add_depth order.price order.quantity depth) orders h.1)

  begin_level-full :
      (max_levels : ℕ) (order : Order P) (done : List (P × ℕ))
      → leb max_levels (length done) ≡ true
      → begin_level max_levels order done ≡ record { done = done; open_level = none }
  unfolding begin_level
  begin_level-full max_levels order done h = rw h refl

  begin_level-room :
      (max_levels : ℕ) (order : Order P) (done : List (P × ℕ))
      → leb max_levels (length done) ≡ false
      → begin_level max_levels order done
        ≡ record { done = done; open_level = some (order.price, order.quantity) }
  unfolding begin_level
  begin_level-room max_levels order done h = rw h refl

  -- A side that is full stays as it is.
  count_orders-full :
      (max_levels : ℕ) (orders : List (Order P)) (done : List (P × ℕ))
      → leb max_levels (length done) ≡ true
      → close_level (count_orders max_levels orders (record { done = done; open_level = none }))
        ≡ done
  unfolding count_orders count_order begin_level close_level
  count_orders-full max_levels [] done h = refl
  count_orders-full max_levels (order ∷ orders) done h =
      rw h (count_orders-full max_levels orders done h)

  same_price_sym : (a b : P) → same_price a b ≡ same_price b a
  same_price_sym a b = ground arith

  count_same :
      (max_levels : ℕ) (order : Order P) (done : List (P × ℕ)) (p : P) (n : ℕ)
      → same_price p order.price ≡ true
      → n + order.quantity < 2 ^ 64
      → count_order max_levels order done (some (p, n))
        ≡ record { done = done; open_level = some (p, n + order.quantity) }
  unfolding count_order
  count_same max_levels order done p n e h =
      rw (same_price_sym order.price p, e, no_wrap (n + order.quantity) h) refl

  count_other :
      (max_levels : ℕ) (order : Order P) (done : List (P × ℕ)) (p : P) (n : ℕ)
      → same_price p order.price ≡ false
      → count_order max_levels order done (some (p, n))
        ≡ begin_level max_levels order (done ++ ((p, n) ∷ []))
  unfolding count_order
  count_other max_levels order done p n e = rw (same_price_sym order.price p, e) refl

  depth_same :
      (order : Order P) (orders : List (Order P)) (p : P) (n : ℕ)
      → same_price p order.price ≡ true
      → depth_from ((p, n) ∷ []) (order ∷ orders) ≡ depth_from ((p, n + order.quantity) ∷ []) orders
  unfolding depth_from add_depth
  depth_same order orders p n e = rw e refl

  depth_other :
      (order : Order P) (orders : List (Order P)) (p : P) (n : ℕ)
      → same_price p order.price ≡ false
      → IsApart p orders
      → depth_from ((p, n) ∷ []) (order ∷ orders)
        ≡ (p, n) ∷ depth_from ((order.price, order.quantity) ∷ []) orders
  unfolding depth_from add_depth
  depth_other order orders p n e h =
      rw e (depth_from-apart_first p n ((order.price, order.quantity) ∷ []) orders h)

  abbrev tail : Order P → List (Order P) → List (P × ℕ)
  tail order orders = depth_from ((order.price, order.quantity) ∷ []) orders

  -- `q` is the order of the prices, read from the better end of the side.
  module _ (q : PriceOrder P) (agree : (a b : P) → same_price a b ≡ (q.le a b && q.le b a)) where
    far :
        (p c b : P)
        → q.le p c ≡ true
        → same_price p c ≡ false
        → q.le c b ≡ true
        → same_price p b ≡ false
    far p c b h e k = rw (agree p b) (ground (arith, agree p c, q.le_trans c b p))

    -- The orders behind a first one, and those behind another price.
    behind-le :
        (order : Order P) (orders : List (Order P))
        → All (λ b. key_lt q.le b order ≡ false) orders
        → All (λ b. q.le order.price b.price ≡ true) orders
    behind-le order orders =
        All-map (λ b. key_lt q.le b order ≡ false) (λ b. q.le order.price b.price ≡ true) orders
          (λ b k. key_lt-le q order b k)

    behind-IsApart :
        (p : P) (order : Order P) (orders : List (Order P))
        → q.le p order.price ≡ true
        → same_price p order.price ≡ false
        → All (λ b. q.le order.price b.price ≡ true) orders
        → IsApart p orders
    behind-IsApart p order orders h e =
        All-map (λ b. q.le order.price b.price ≡ true) (λ b. same_price p b.price ≡ false) orders
          (λ b k. far p order.price b.price h e k)

    -- The levels from a first one on get no better.
    first_level :
        (orders : List (Order P)) (p : P) (n : ℕ)
        → All (λ b. q.le p b.price ≡ true) orders
        → IsSorted q.le orders
        → All (λ a. q.le p a.0 ≡ true) (depth_from ((p, n) ∷ []) orders)
          × Ascends (λ a b. q.le a.0 b.0) (depth_from ((p, n) ∷ []) orders)
    unfolding depth_from
    first_level [] p n h s = ((ground (arith, q.le_total p p), tt), (tt, tt))
    first_level (order ∷ orders) p n h s = elim (Bool-cases (same_price p order.price)) [
      | inl e ↦
          rw (depth_same order orders p n e) (first_level orders p (n + order.quantity) h.1 s.1)
      | inr e ↦
          let behind = behind-le order orders s.0 in
          let (worse, ascends) = first_level orders order.price order.quantity behind s.1 in
          let after =
            All-map (λ (a : P × ℕ). q.le order.price a.0 ≡ true) (λ a. q.le p a.0 ≡ true)
              (tail order orders) (λ a k. q.le_trans p order.price a.0 h.0 k) worse in
          rw (depth_other order orders p n e (behind-IsApart p order orders h.0 e behind))
            ((ground (arith, q.le_total p p), after), (after, ascends))
    ]

    pub depth_from-Ascends :
        (orders : List (Order P))
        → IsSorted q.le orders
        → Ascends (λ a b. q.le a.0 b.0) (depth_from [] orders)
    unfolding depth_from add_depth
    depth_from-Ascends [] s = tt
    depth_from-Ascends (order ∷ orders) s =
        (first_level orders order.price order.quantity (behind-le order orders s.0) s.1).1

    walk :
        (max_levels : ℕ) (orders : List (Order P)) (done : List (P × ℕ)) (p : P) (n : ℕ)
        → All (λ b. q.le p b.price ≡ true) orders
        → IsSorted q.le orders
        → length done < max_levels
        → n + total orders < 2 ^ 64
        → close_level
            (count_orders max_levels orders (record { done = done; open_level = some (p, n) }))
          ≡ take max_levels (done ++ depth_from ((p, n) ∷ []) orders)
    unfolding count_orders total close_level depth_from
    walk max_levels [] done p n h s room small = sym (
        take_all max_levels (done ++ ((p, n) ∷ []))
          (omega (arith, room, length-append done ((p, n) ∷ []))))
    walk max_levels (order ∷ orders) done p n h s room small =
        elim (Bool-cases (same_price p order.price)) [
          | inl e ↦
              ap (λ t. close_level (count_orders max_levels orders t))
                (count_same max_levels order done p n e (omega (arith, small)))
              ∙ walk max_levels orders done p (n + order.quantity) h.1 s.1 room
                  (omega (arith, small))
              ∙ ap (λ d. take max_levels (done ++ d)) (sym (depth_same order orders p n e))
          | inr e ↦
              let behind = behind-le order orders s.0 in
              let apart = behind-IsApart p order orders h.0 e behind in
              ap (λ t. close_level (count_orders max_levels orders t))
                (count_other max_levels order done p n e)
              ∙ elim (Bool-cases (leb max_levels (length (done ++ ((p, n) ∷ []))))) [
                | inl full ↦
                    ap (λ t. close_level (count_orders max_levels orders t))
                      (begin_level-full max_levels order (done ++ ((p, n) ∷ [])) full)
                    ∙ count_orders-full max_levels orders (done ++ ((p, n) ∷ [])) full
                    ∙ sym (
                        ap (λ k. take k ((done ++ ((p, n) ∷ [])) ++ tail order orders))
                          {x = max_levels} {y = length (done ++ ((p, n) ∷ []))}
                          (ground (arith, room, length-append done ((p, n) ∷ [])))
                        ∙ take_whole (done ++ ((p, n) ∷ [])) (tail order orders))
                | inr more ↦
                    ap (λ t. close_level (count_orders max_levels orders t))
                      (begin_level-room max_levels order (done ++ ((p, n) ∷ [])) more)
                    ∙ walk max_levels orders (done ++ ((p, n) ∷ [])) order.price order.quantity
                        behind s.1 (ground arith) (omega (arith, small))
              ]
              ∙ ap (take max_levels) (
                  append_assoc done ((p, n) ∷ []) (tail order orders)
                  ∙ ap (λ d. done ++ d) (sym (depth_other order orders p n e apart)))
        ]

    -- The loop over a sorted side, cut off, is the dictionary, cut off.
    pub side_levels_lem :
        (max_levels : ℕ) (orders : List (Order P))
        → IsSorted q.le orders
        → total orders < 2 ^ 64
        → side_levels max_levels orders ≡ take max_levels (depth_from [] orders)
    unfolding side_levels count_orders count_order total close_level depth_from add_depth
    side_levels_lem max_levels [] s small = sym (take_all max_levels [] (omega arith))
    side_levels_lem zero (order ∷ orders) s small =
        ap (λ t. close_level (count_orders zero orders t))
          (begin_level-full zero order [] (ground arith))
        ∙ count_orders-full zero orders [] (ground arith)
    side_levels_lem (suc max_levels) (order ∷ orders) s small =
        ap (λ t. close_level (count_orders (suc max_levels) orders t))
          (begin_level-room (suc max_levels) order [] (ground arith))
        ∙ walk (suc max_levels) orders [] order.price order.quantity (behind-le order orders s.0)
            s.1 (omega arith) small

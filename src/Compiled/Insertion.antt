-- ===== src/Compiled/Insertion.antt =====
-- The places that src/engine/matching_engine.pyx finds for its resting orders are those that the
-- sort of src/engine/matching_engine.py gives them.
use infotact_python_project.Prelude.{
  Bool, if◌then◌else◌, ◌⊎◌, true, false, List, [], ◌∷◌, ◌++◌, All, ◌≡◌, refl, ap, ◌∙◌, sym, arith,
  Bool-cases, inl, inr,
}
use infotact_python_project.Float.{PriceOrder}
use infotact_python_project.Engine.{Order, key_lt, insert, sort}
use infotact_python_project.Engine.Sorting.{IsSorted}
use infotact_python_project.Compiled.{goes_before, insert_order}

module _ {ℓ} {P : Type ℓ} (o : PriceOrder P) where
  goes_before-key_lt : (a b : Order P) → goes_before o.le a b ≡ key_lt o.le a b
  unfolding goes_before key_lt
  goes_before-key_lt a b = ground (arith, o.le_total a.price b.price)

  less_trans :
      (a b c : Order P) → key_lt o.le a b ≡ true → key_lt o.le b c ≡ true → key_lt o.le a c ≡ true
  unfolding key_lt
  less_trans a b c h k = ground (
    arith,
    o.le_trans a.price b.price c.price,
    o.le_trans c.price a.price b.price,
    o.le_trans b.price c.price a.price,
    o.le_trans c.price b.price a.price,
    o.le_total a.price b.price,
    o.le_total b.price c.price,
    o.le_total a.price c.price,
  )

  not_less_trans :
      (a b c : Order P)
      → key_lt o.le a b ≡ false
      → key_lt o.le b c ≡ false
      → key_lt o.le a c ≡ false
  unfolding key_lt
  not_less_trans a b c h k = ground (
    arith,
    o.le_trans c.price b.price a.price,
    o.le_trans a.price c.price b.price,
    o.le_trans b.price a.price c.price,
    o.le_trans b.price c.price a.price,
    o.le_total a.price b.price,
    o.le_total b.price c.price,
    o.le_total a.price c.price,
  )

  insert_step :
      (x b : Order P) (bs : List (Order P)) (t : Bool)
      → key_lt o.le b x ≡ t
      → insert o.le x (b ∷ bs) ≡ (if t then b ∷ insert o.le x bs else x ∷ b ∷ bs)
  unfolding insert
  insert_step x b bs t h = rw h refl

  insert_alone : (a : Order P) → insert o.le a [] ≡ insert_order o.le a []
  unfolding insert insert_order
  insert_alone a = refl

  insert_order_step :
      (a b : Order P) (bs : List (Order P)) (t : Bool)
      → key_lt o.le a b ≡ t
      → insert_order o.le a (b ∷ bs) ≡ (if t then a ∷ b ∷ bs else b ∷ insert_order o.le a bs)
  unfolding insert_order
  insert_order_step a b bs t h = rw (goes_before-key_lt a b, h) refl

  -- Where the new order goes before `b`, and `x` does not go behind it.
  first :
      (x a b : Order P) (bs : List (Order P))
      → key_lt o.le a b ≡ true
      → key_lt o.le b x ≡ false
      → (key_lt o.le a x ≡ true) ⊎ (key_lt o.le a x ≡ false)
      → insert o.le x (a ∷ b ∷ bs) ≡ insert_order o.le a (x ∷ b ∷ bs)
  first x a b bs ab bx (inl ax) =
      insert_step x a (b ∷ bs) true ax
      ∙ ap (λ r. a ∷ r) (insert_step x b bs false bx)
      ∙ sym (insert_order_step a x (b ∷ bs) true ax)
  first x a b bs ab bx (inr ax) =
      insert_step x a (b ∷ bs) false ax
      ∙ sym (
          insert_order_step a x (b ∷ bs) false ax
          ∙ ap (λ r. x ∷ r) (insert_order_step a b bs true ab))

  -- An older order goes in before its equals and a newer one behind them, in either order.
  insert-insert_order :
      (x a : Order P) (ys : List (Order P))
      → insert o.le x (insert_order o.le a ys) ≡ insert_order o.le a (insert o.le x ys)
  unfolding insert insert_order
  insert-insert_order x a [] = elim (Bool-cases (key_lt o.le a x)) [
    | inl e ↦ insert_step x a [] true e ∙ sym (insert_order_step a x [] true e)
    | inr e ↦ insert_step x a [] false e ∙ sym (insert_order_step a x [] false e)
  ]
  insert-insert_order x a (b ∷ bs) = elim (Bool-cases (key_lt o.le a b)) [
    | inl ab ↦ elim (Bool-cases (key_lt o.le b x)) [
      | inl bx ↦
          ap (insert o.le x) (insert_order_step a b bs true ab)
          ∙ insert_step x a (b ∷ bs) true (less_trans a b x ab bx)
          ∙ ap (λ r. a ∷ r) (insert_step x b bs true bx)
          ∙ sym (
              ap (insert_order o.le a) (insert_step x b bs true bx)
              ∙ insert_order_step a b (insert o.le x bs) true ab)
      | inr bx ↦
          ap (insert o.le x) (insert_order_step a b bs true ab)
          ∙ first x a b bs ab bx (Bool-cases (key_lt o.le a x))
          ∙ sym (ap (insert_order o.le a) (insert_step x b bs false bx))
    ]
    | inr ab ↦ elim (Bool-cases (key_lt o.le b x)) [
      | inl bx ↦
          ap (insert o.le x) (insert_order_step a b bs false ab)
          ∙ insert_step x b (insert_order o.le a bs) true bx
          ∙ ap (λ r. b ∷ r) (insert-insert_order x a bs)
          ∙ sym (
              ap (insert_order o.le a) (insert_step x b bs true bx)
              ∙ insert_order_step a b (insert o.le x bs) false ab)
      | inr bx ↦
          ap (insert o.le x) (insert_order_step a b bs false ab)
          ∙ insert_step x b (insert_order o.le a bs) false bx
          ∙ sym (
              ap (insert_order o.le a) (insert_step x b bs false bx)
              ∙ insert_order_step a x (b ∷ bs) false (not_less_trans a b x ab bx)
              ∙ ap (λ r. x ∷ r) (insert_order_step a b bs false ab))
    ]
  ]

  -- To sort after an order was appended is to insert it into what was sorted.
  pub sort-append_one :
      (xs : List (Order P)) (a : Order P)
      → sort o.le (xs ++ (a ∷ [])) ≡ insert_order o.le a (sort o.le xs)
  unfolding sort
  sort-append_one [] a = insert_alone a
  sort-append_one (x ∷ xs) a =
      ap (insert o.le x) (sort-append_one xs a) ∙ insert-insert_order x a (sort o.le xs)

  insert-first :
      (a : Order P) (bs : List (Order P))
      → All (λ b. key_lt o.le b a ≡ false) bs
      → insert o.le a bs ≡ a ∷ bs
  unfolding insert
  insert-first a [] h = refl
  insert-first a (b ∷ bs) h = rw (h.0) refl

  pub sort-sorted : (bs : List (Order P)) → IsSorted o.le bs → sort o.le bs ≡ bs
  unfolding sort
  sort-sorted [] h = refl
  sort-sorted (a ∷ bs) h = ap (insert o.le a) (sort-sorted bs h.1) ∙ insert-first a bs h.0

-- ===== src/Engine/Sorting.antt =====
-- `list.sort` of the resting orders (src/engine/matching_engine.py): what the sort of the model
-- keeps, and the order that it gives.
use mathlib.Core.List.Perm
use infotact_python_project.Prelude.{
  ℕ, ◌+◌, Bool, true, false, List, [], ◌∷◌, All, All-map, Perm, ◌≡◌, refl, arith, Bool-cases, inl,
  inr, not, ◌&&◌, filter, if◌then◌else◌, ap, ◌∙◌,
}
use infotact_python_project.Float.{PriceOrder}
use infotact_python_project.Engine.{Order, key_lt, insert, sort}

-- The same prices, read from the other end: `>=` for `<=`.
abbrev pub dual {ℓ} : {P : Type ℓ} → PriceOrder P → PriceOrder P
dual o = record {
  le = λ a b. o.le b a;
  le_total = λ a b. o.le_total b a;
  le_trans = λ a b c h k. o.le_trans c b a k h;
}

-- The shares that rest in a list of orders.
unfoldable pub total {ℓ} : {P : Type ℓ} → List (Order P) → ℕ
total [] = 0
total (a ∷ rest) = a.quantity + total rest

module _ {ℓ} {P : Type ℓ} (le : P → P → Bool) where
  total-insert :
      (a : Order P) (bs : List (Order P)) → total (insert le a bs) ≡ a.quantity + total bs
  unfolding total insert
  total-insert a [] = refl
  total-insert a (b ∷ bs) = ground (arith, total-insert a bs)

  pub total-sort : (bs : List (Order P)) → total (sort le bs) ≡ total bs
  unfolding total sort
  total-sort [] = refl
  total-sort (a ∷ bs) = omega (arith, total-insert a (sort le bs), total-sort bs)

  module _ {κ} (Q : Order P → Type κ) where
    All-insert : (a : Order P) (bs : List (Order P)) → Q a → All Q bs → All Q (insert le a bs)
    unfolding insert
    All-insert a [] q h = (q, tt)
    All-insert a (b ∷ bs) q h = elim (Bool-cases (key_lt le b a)) [
      | inl e ↦ rw e (h.0, All-insert a bs q h.1)
      | inr e ↦ rw e (q, h)
    ]

    pub All-sort : (bs : List (Order P)) → All Q bs → All Q (sort le bs)
    unfolding sort
    All-sort [] h = tt
    All-sort (a ∷ bs) h = All-insert a (sort le bs) h.0 (All-sort bs h.1)

  insert-perm : (a : Order P) (bs : List (Order P)) → Perm (insert le a bs) (a ∷ bs)
  unfolding insert
  insert-perm a [] = Perm.refl (a ∷ [])
  insert-perm a (b ∷ bs) = elim (Bool-cases (key_lt le b a)) [
    | inl e ↦ rw e (Perm.trans (Perm.cons b (insert-perm a bs)) (Perm.swap a b bs))
    | inr e ↦ rw e (Perm.refl (a ∷ b ∷ bs))
  ]

  pub sort-perm : (bs : List (Order P)) → Perm (sort le bs) bs
  unfolding sort
  sort-perm [] = Perm.refl []
  sort-perm (a ∷ bs) = Perm.trans (insert-perm a (sort le bs)) (Perm.cons a (sort-perm bs))

  -- The key does not look at the quantity.
  pub key_lt_price :
      (a b : Order P) (n : ℕ) → key_lt le a (record b { quantity = n }) ≡ key_lt le a b
  unfolding key_lt
  key_lt_price a b n = refl

  -- No later entry has a smaller key.
  abbrev pub IsSorted : List (Order P) → Type 0
  IsSorted [] = Unit
  IsSorted (a ∷ bs) = All (λ b. key_lt le b a ≡ false) bs × IsSorted bs

  -- Neither entry goes before the other.
  abbrev pub same_key : Order P → Order P → Bool
  same_key a b = not (key_lt le a b) && not (key_lt le b a)

module _ {ℓ} {P : Type ℓ} (o : PriceOrder P) where
  key_lt_trans :
      (a b c : Order P)
      → key_lt o.le b a ≡ false
      → key_lt o.le c b ≡ false
      → key_lt o.le c a ≡ false
  unfolding key_lt
  key_lt_trans a b c h k = ground (
    arith,
    o.le_trans a.price b.price c.price,
    o.le_trans c.price a.price b.price,
    o.le_trans b.price c.price a.price,
    o.le_trans c.price b.price a.price,
    o.le_total a.price b.price,
    o.le_total b.price c.price,
    o.le_total a.price c.price,
  )

  key_lt_asymm : (a b : Order P) → key_lt o.le b a ≡ true → key_lt o.le a b ≡ false
  unfolding key_lt
  key_lt_asymm a b h = ground (arith, o.le_total a.price b.price)

  -- Nothing before `a` in the sorted list: nothing after it in price either.
  pub key_lt-le : (a b : Order P) → key_lt o.le b a ≡ false → o.le a.price b.price ≡ true
  unfolding key_lt
  key_lt-le a b h = ground (arith, o.le_total a.price b.price)

  insert-IsSorted :
      (a : Order P) (bs : List (Order P)) → IsSorted o.le bs → IsSorted o.le (insert o.le a bs)
  unfolding insert
  insert-IsSorted a [] h = (tt, tt)
  insert-IsSorted a (b ∷ bs) h = elim (Bool-cases (key_lt o.le b a)) [
    | inl e ↦ rw e (
      All-insert o.le (λ c. key_lt o.le c b ≡ false) a bs (key_lt_asymm a b e) h.0,
      insert-IsSorted a bs h.1,
    )
    | inr e ↦ rw e ((e, All-map _ _ bs (λ c k. key_lt_trans a b c e k) h.0), h)
  ]

  pub sort-IsSorted : (bs : List (Order P)) → IsSorted o.le (sort o.le bs)
  unfolding sort
  sort-IsSorted [] = tt
  sort-IsSorted (a ∷ bs) = insert-IsSorted a (sort o.le bs) (sort-IsSorted bs)

  same_key_trans :
      (c a b : Order P)
      → same_key o.le c a ≡ true
      → same_key o.le c b ≡ true
      → key_lt o.le b a ≡ false
  same_key_trans c a b h k = key_lt_trans a c b (ground arith) (ground arith)

  insert_stable :
      (c a : Order P) (bs : List (Order P))
      → filter (same_key o.le c) (insert o.le a bs) ≡ filter (same_key o.le c) (a ∷ bs)
  unfolding insert
  insert_stable c a [] = refl
  insert_stable c a (b ∷ bs) = elim (Bool-cases (key_lt o.le b a)) [
    | inr e ↦ rw e
    | inl e ↦ rw e (elim (Bool-cases (same_key o.le c a)) [
      | inr f ↦ rw (f, insert_stable c a bs) (rw f)
      | inl f ↦ elim (Bool-cases (same_key o.le c b)) [
        | inl g ↦ absurd (not_both (same_key_trans c a b f g) e)
        | inr g ↦ rw (g, insert_stable c a bs)
      ]
    ])
  ]
    where
      not_both : {t : Bool} → t ≡ false → t ≡ true → ⊥
      not_both h k = cc

  -- Entries of one key keep their order.
  pub sort_stable :
      (c : Order P) (bs : List (Order P))
      → filter (same_key o.le c) (sort o.le bs) ≡ filter (same_key o.le c) bs
  unfolding sort
  sort_stable c [] = refl
  sort_stable c (a ∷ bs) =
      insert_stable c a (sort o.le bs)
      ∙ ap (λ r. if same_key o.le c a then a ∷ r else r) (sort_stable c bs)

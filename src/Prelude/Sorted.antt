-- ===== src/Prelude/Sorted.antt =====
-- Python's `sorted`: an insertion sort, which is stable as that is.
use Prim.Native.Nat.{ℕ, suc, ◌+◌}
use mathlib.Core.Path.{◌≡◌, refl}
use mathlib.Core.Logic.{◌⊎◌, inl, inr}
use mathlib.Core.List.{List, [], ◌∷◌}
use mathlib.Core.Bool.{Bool, true}
use infotact_python_project.Prelude.Tests.{if◌then◌else◌, Bool-cases}
use infotact_python_project.Prelude.Lists.{length, All, All-map}
use native.Mathlib.Omega.{arith}

module _ {ℓ} {A : Type ℓ} (le : A → A → Bool) where
  unfoldable pub insert_before : A → List A → List A
  insert_before a [] = a ∷ []
  insert_before a (b ∷ bs) = if le a b then a ∷ b ∷ bs else b ∷ insert_before a bs

  unfoldable pub sorted : List A → List A
  sorted [] = []
  sorted (a ∷ rest) = insert_before a (sorted rest)

  -- Each entry is below all later ones.
  abbrev pub Ascends : List A → Type 0
  Ascends [] = Unit
  Ascends (a ∷ rest) = All (λ b. le a b ≡ true) rest × Ascends rest

  length-insert_before : (a : A) (bs : List A) → length (insert_before a bs) ≡ suc (length bs)
  unfolding insert_before
  length-insert_before a [] = refl
  length-insert_before a (b ∷ bs) = ground (arith, length-insert_before a bs)

  pub length-sorted : (xs : List A) → length (sorted xs) ≡ length xs
  unfolding sorted
  length-sorted [] = refl
  length-sorted (a ∷ rest) = omega (arith, length-insert_before a (sorted rest), length-sorted rest)

  All-insert_before {κ} :
      (Q : A → Type κ) (a : A) (bs : List A) → Q a → All Q bs → All Q (insert_before a bs)
  unfolding insert_before
  All-insert_before Q a [] h k = (h, tt)
  All-insert_before Q a (b ∷ bs) h k = elim (Bool-cases (le a b)) [
    | inl e ↦ rw e (h, k)
    | inr e ↦ rw e (k.0, All-insert_before Q a bs h k.1)
  ]

  pub All-sorted {κ} : (Q : A → Type κ) (xs : List A) → All Q xs → All Q (sorted xs)
  unfolding sorted
  All-sorted Q [] h = tt
  All-sorted Q (a ∷ rest) h = All-insert_before Q a (sorted rest) h.0 (All-sorted Q rest h.1)

  module _ (total : (a b : A) → (le a b ≡ true) ⊎ (le b a ≡ true))
      (trans : (a b c : A) → le a b ≡ true → le b c ≡ true → le a c ≡ true) where
    insert_before-Ascends : (a : A) (bs : List A) → Ascends bs → Ascends (insert_before a bs)
    unfolding insert_before
    insert_before-Ascends a [] h = (tt, tt)
    insert_before-Ascends a (b ∷ bs) h = elim (Bool-cases (le a b)) [
      | inl e ↦ rw e ((e, All-map _ _ bs (λ c k. trans a b c e k) h.0), h)
      | inr e ↦
          rw e (
            All-insert_before _ a bs (ground (arith, total a b)) h.0,
            insert_before-Ascends a bs h.1,
          )
    ]

    pub sorted-Ascends : (xs : List A) → Ascends (sorted xs)
    unfolding sorted
    sorted-Ascends [] = tt
    sorted-Ascends (a ∷ rest) = insert_before-Ascends a (sorted rest) (sorted-Ascends rest)

-- The weights of the entries, added up.
abbrev pub weigh {ℓ} : {A : Type ℓ} → (A → ℕ) → List A → ℕ
weigh w [] = 0
weigh w (x ∷ xs) = w x + weigh w xs

module _ {ℓ} {A : Type ℓ} (le : A → A → Bool) where
  weigh-insert_before :
      (w : A → ℕ) (a : A) (bs : List A) → weigh w (insert_before le a bs) ≡ w a + weigh w bs
  unfolding insert_before
  weigh-insert_before w a [] = refl
  weigh-insert_before w a (b ∷ bs) = ground (arith, weigh-insert_before w a bs)

  pub weigh-sorted : (w : A → ℕ) (xs : List A) → weigh w (sorted le xs) ≡ weigh w xs
  unfolding sorted
  weigh-sorted w [] = refl
  weigh-sorted w (a ∷ rest) =
      omega (arith, weigh-insert_before w a (sorted le rest), weigh-sorted w rest)

  -- A symmetric relation between all entries is kept.
  module _ (apart : A → A → Bool)
      (sym_apart : (a b : A) → apart a b ≡ true → apart b a ≡ true) where
    insert_before-Ascends-apart :
        (a : A) (bs : List A)
        → All (λ b. apart a b ≡ true) bs
        → Ascends apart bs
        → Ascends apart (insert_before le a bs)
    unfolding insert_before
    insert_before-Ascends-apart a [] h k = (tt, tt)
    insert_before-Ascends-apart a (b ∷ bs) h k = elim (Bool-cases (le a b)) [
      | inl e ↦ rw e (h, k)
      | inr e ↦ rw e (
        All-insert_before le _ a bs (sym_apart a b h.0) k.0,
        insert_before-Ascends-apart a bs h.1 k.1,
      )
    ]

    pub sorted-Ascends-apart : (xs : List A) → Ascends apart xs → Ascends apart (sorted le xs)
    unfolding sorted
    sorted-Ascends-apart [] h = tt
    sorted-Ascends-apart (a ∷ rest) h =
        insert_before-Ascends-apart a (sorted le rest) (All-sorted le _ rest h.0)
          (sorted-Ascends-apart rest h.1)

-- Two relations at once.
pub Ascends-both {ℓ} :
    {A : Type ℓ} (r s t : A → A → Bool) (xs : List A)
    → ((a b : A) → r a b ≡ true → s a b ≡ true → t a b ≡ true)
    → Ascends r xs
    → Ascends s xs
    → Ascends t xs
Ascends-both {A} r s t [] f h k = tt
Ascends-both {A} r s t (x ∷ xs) f h k = (both xs h.0 k.0, Ascends-both r s t xs f h.1 k.1)
  where
    both :
        (ys : List A)
        → All (λ y. r x y ≡ true) ys
        → All (λ y. s x y ≡ true) ys
        → All (λ y. t x y ≡ true) ys
    both [] p q = tt
    both (y ∷ ys) p q = (f x y p.0 q.0, both ys p.1 q.1)

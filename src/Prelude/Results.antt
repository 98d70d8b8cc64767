-- ===== src/Prelude/Results.antt =====
-- A call that returns or raises.
use mathlib.Core.Path.{◌≡◌, refl}

-- `err` is an exception that is on its way.
pub data Result {ℓ κ} (E : Type ℓ) (A : Type κ) : Type (ℓ ⊔ κ) where
  err : E → Result E A
  ok : A → Result E A

module _ {ℓ κ μ} {E : Type ℓ} {A : Type κ} {B : Type μ} where
  infixl 5 ◌>>=◌
  abbrev pub ◌>>=◌ : Result E A → (A → Result E B) → Result E B
  err raised >>= next = err raised
  ok value >>= next = next value

  -- A sequence that returns has a first call that returns.
  pub >>=-returns :
      {result : B} (call : Result E A) (next : A → Result E B)
      → (call >>= next) ≡ ok result
      → (value : A) × (call ≡ ok value) × (next value ≡ ok result)
  >>=-returns (err raised) next returns = cc
  >>=-returns (ok value) next returns = (value, refl, returns)

pub ok-injective {ℓ κ} :
    {E : Type ℓ} {A : Type κ} (a b : A) → ◌≡◌ {A = Result E A} (ok a) (ok b) → a ≡ b
ok-injective a b h = cc

-- ===== src/Float.antt =====
-- Python's `float`, as far as the program relies on it: a price is compared, calculated with,
-- packed into eight bytes by `struct`, and read back. No price is a NaN.
pub mod Cents
use infotact_python_project.Prelude.{ℕ, ◌≤◌, Bool, true, ◌≡◌, ◌⊎◌, not, ◌&&◌, if◌then◌else◌, length}
use infotact_python_project.Bytes.{Bytes}

-- What `<=` is on the prices.
pub record PriceOrder {ℓ} (P : Type ℓ) : Type ℓ where
  pub le : P → P → Bool
  pub le_total : (a b : P) → (le a b ≡ true) ⊎ (le b a ≡ true)
  pub le_trans : (a b c : P) → le a b ≡ true → le b c ≡ true → le a c ≡ true

-- The format `d` of `struct`, and the constant 0.
pub record PriceFormat {ℓ} (P : Type ℓ) : Type ℓ where
  pub order : PriceOrder P
  pub zero_price : P
  pub pack : P → Bytes
  pub unpack : Bytes → P
  pub length-pack : (p : P) → length (pack p) ≡ 8
  pub unpack-pack : (p : P) → unpack (pack p) ≡ p

-- `p > 0`
abbrev pub is_positive {ℓ} : {P : Type ℓ} → PriceFormat P → P → Bool
is_positive f p = not (f.order.le p f.zero_price)

-- `+`, `-`, `*` and `/`; `float` of an integer; `int` of a float, 0 for a negative one; `round`
-- to two places. A literal such as 0.05 is the quotient of two integers, which is rounded alike.
pub record FloatOps {ℓ} (P : Type ℓ) : Type ℓ where
  pub add : P → P → P
  pub sub : P → P → P
  pub mul : P → P → P
  pub div : P → P → P
  pub float : ℕ → P
  pub truncate : P → ℕ
  pub round_2 : P → P

module _ {ℓ} {P : Type ℓ} ⦃o : PriceOrder P⦄ where
  -- `a == b`, `a < b`
  abbrev pub same_price : P → P → Bool
  same_price a b = o.le a b && o.le b a

  abbrev pub less : P → P → Bool
  less a b = not (o.le b a)

  -- `max(a, b)` and `min(a, b)`: the first, unless the second is beyond it.
  abbrev pub max_float : P → P → P
  max_float a b = if less a b then b else a

  abbrev pub min_float : P → P → P
  min_float a b = if less b a then b else a

-- What IEEE 754 says of the operations: the rounding of a result is monotone, and small integers
-- are floats.
pub record RoundingLaws {ℓ} {P : Type ℓ} (o : PriceOrder P) (f : FloatOps P) : Type ℓ where
  pub div_le_one :
      (x : P) → o.le x (f.float 100) ≡ true → o.le (f.div x (f.float 100)) (f.float 1) ≡ true
  pub mul_le :
      (a : P) (n : ℕ) → o.le a (f.float 1) ≡ true → o.le (f.mul a (f.float n)) (f.float n) ≡ true
  pub truncate_le : (x : P) (n : ℕ) → o.le x (f.float n) ≡ true → f.truncate x ≤ n

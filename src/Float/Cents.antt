-- ===== src/Float/Cents.antt =====
-- Prices that are 64-bit numbers of cents, packed as such, and plain numbers: they have what is
-- asked of a price, and of its arithmetic.
use native.Mathlib.Bridge.{le_prop}
use native.Mathlib.Nat.{mod-lt}
use mathlib.Core.HLevel.{Σ_prop_path}
use infotact_python_project.Prelude.{
  ℕ, zero, suc, ◌+◌, ◌-◌, ◌*◌, ◌/◌, ◌<◌, ◌≤◌, ◌^◌, ◌%◌, true, leb, ◌≡◌, arith, ◌⊎◌,
}
use infotact_python_project.Bytes.{Bytes, encode, decode}
use infotact_python_project.Bytes.Ints.{length-encode, decode-encode}
use infotact_python_project.Float.{PriceOrder, PriceFormat, FloatOps, RoundingLaws, is_positive}

abbrev pub Cents : Type 0
Cents = (n : ℕ) × (n < 2 ^ 64)

pub cents_le_total : (a b : Cents) → (leb a.0 b.0 ≡ true) ⊎ (leb b.0 a.0 ≡ true)
cents_le_total a b = ground arith

pub cents_le_trans : (a b c : Cents) → leb a.0 b.0 ≡ true → leb b.0 c.0 ≡ true → leb a.0 c.0 ≡ true
cents_le_trans a b c h k = ground arith

abbrev pub cents_unpack : Bytes → Cents
cents_unpack bs = (decode bs % 2 ^ 64, mod-lt (decode bs) (omega arith))

pub cents_unpack-pack : (p : Cents) → cents_unpack (encode 8 p.0) ≡ p
cents_unpack-pack p = Σ_prop_path (λ n. le_prop) (rw (decode-encode 8 p.0 p.1) (omega (arith, p.1)))

abbrev pub cents_format : PriceFormat Cents
cents_format = record {
  order = record { le = λ a b. leb a.0 b.0; le_total = cents_le_total; le_trans = cents_le_trans };
  zero_price = (0, omega arith);
  pack = λ p. encode 8 p.0;
  unpack = cents_unpack;
  length-pack = λ p. length-encode 8 p.0;
  unpack-pack = cents_unpack-pack;
}

-- Whole numbers with the arithmetic of whole numbers: they have what is asked of the rounding.
pub numbers_total : (a b : ℕ) → (leb a b ≡ true) ⊎ (leb b a ≡ true)
numbers_total a b = ground arith

pub numbers_trans : (a b c : ℕ) → leb a b ≡ true → leb b c ≡ true → leb a c ≡ true
numbers_trans a b c h k = ground arith

abbrev pub numbers : PriceOrder ℕ
numbers = record { le = leb; le_total = numbers_total; le_trans = numbers_trans }

abbrev pub number_ops : FloatOps ℕ
number_ops = record {
  add = λ a b. a + b;
  sub = λ a b. a - b;
  mul = λ a b. a * b;
  div = λ a b. a / b;
  float = λ n. n;
  truncate = λ n. n;
  round_2 = λ n. n;
}

div_le_one_lem : (x : ℕ) → leb x 100 ≡ true → leb (x / 100) 1 ≡ true
div_le_one_lem x h = ground arith

mul_le_lem : (a n : ℕ) → leb a 1 ≡ true → leb (a * n) n ≡ true
mul_le_lem zero n h = ground arith
mul_le_lem (suc zero) n h = ground arith
mul_le_lem (suc (suc a)) n h = absurd (ground arith)

truncate_le_lem : (x n : ℕ) → leb x n ≡ true → x ≤ n
truncate_le_lem x n h = ground arith

pub number_rounding : RoundingLaws numbers number_ops
number_rounding = record {
  div_le_one = div_le_one_lem;
  mul_le = mul_le_lem;
  truncate_le = truncate_le_lem;
}

-- The arithmetic of cents wraps at 64 bits.
abbrev pub cents_of : ℕ → Cents
cents_of n = (n % 2 ^ 64, mod-lt n (omega arith))

abbrev pub cents_ops : FloatOps Cents
cents_ops = record {
  add = λ a b. cents_of (a.0 + b.0);
  sub = λ a b. cents_of (a.0 - b.0);
  mul = λ a b. cents_of (a.0 * b.0);
  div = λ a b. cents_of (a.0 / b.0);
  float = cents_of;
  truncate = λ a. a.0;
  round_2 = λ a. a;
}

pub cents_rounds_up : (x : Cents) → leb 1 x.0 ≡ true → is_positive cents_format x ≡ true
cents_rounds_up x h = ground arith

-- ===== src/Bytes/Ints.antt =====
-- Little-endian integers: what is written is read back.
use native.Mathlib.Nat.{pow-suc}
use infotact_python_project.Prelude.{ℕ, zero, suc, ◌/◌, ◌^◌, ◌<◌, ◌≡◌, refl, ap, length, arith}
use infotact_python_project.Bytes.{encode, decode}

pub length-encode : (n x : ℕ) → length (encode n x) ≡ n
unfolding encode
length-encode zero x = refl
length-encode (suc n) x = ap suc (length-encode n (x / 256))

pub decode-encode : (n x : ℕ) → x < 256 ^ n → decode (encode n x) ≡ x
unfolding encode decode
decode-encode zero x h = omega arith
decode-encode (suc n) x h =
    omega (arith, pow-suc, decode-encode n (x / 256) (omega (arith, pow-suc 256 n)))

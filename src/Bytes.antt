-- ===== src/Bytes.antt =====
-- The parts of `struct` and `mmap` that the buffers and the order format use: little-endian
-- unsigned integers, and slices of a byte string. A byte is a number.
pub mod Ints
pub mod Slices
pub mod Slots
use infotact_python_project.Prelude.{
  ℕ, zero, suc, ◌+◌, ◌*◌, ◌/◌, ◌%◌, Bool, true, false, ◌&&◌, ◌==◌, List, [], ◌∷◌, take,
}

abbrev pub Bytes : Type 0
Bytes = List ℕ

-- `==` on byte strings
unfoldable pub bytes_eq : Bytes → Bytes → Bool
bytes_eq [] [] = true
bytes_eq [] (y ∷ ys) = false
bytes_eq (x ∷ xs) [] = false
bytes_eq (x ∷ xs) (y ∷ ys) = x == y && bytes_eq xs ys

-- The `n` bytes of `x`, least significant first.
unfoldable pub encode : ℕ → ℕ → Bytes
encode zero x = []
encode (suc n) x = (x % 256) ∷ encode n (x / 256)

unfoldable pub decode : Bytes → ℕ
decode [] = 0
decode (b ∷ bs) = b + 256 * decode bs

-- `m[offset : offset + n]`
unfoldable pub read_at : ℕ → ℕ → Bytes → Bytes
read_at zero n bs = take n bs
read_at (suc i) n [] = []
read_at (suc i) n (b ∷ bs) = read_at i n bs

-- The front of the second list replaced by the first.
unfoldable pub overlay : Bytes → Bytes → Bytes
overlay [] bs = bs
overlay (x ∷ xs) [] = []
overlay (x ∷ xs) (b ∷ bs) = x ∷ overlay xs bs

-- `m[offset : offset + len(xs)] = xs`, where the map is long enough.
unfoldable pub write_at : ℕ → Bytes → Bytes → Bytes
unfolding overlay
write_at zero xs bs = overlay xs bs
write_at (suc i) xs [] = []
write_at (suc i) xs (b ∷ bs) = b ∷ write_at i xs bs

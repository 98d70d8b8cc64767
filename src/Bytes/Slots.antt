-- ===== src/Bytes/Slots.antt =====
-- The slots of a buffer: records of one size, one after another behind a header.
use native.Mathlib.Decide.{dec_lt}
use infotact_python_project.Prelude.{ℕ, ◌+◌, ◌*◌, ◌≤◌, ◌<◌, ◌≡◌, ◌≢◌, length, arith}
use infotact_python_project.Bytes.{Bytes, read_at, write_at}
use infotact_python_project.Bytes.Slices.{read_at-write_at, read_at_before, read_at_after}

-- The slot `i` of records of `size` bytes behind a header of `start` bytes.
unfoldable pub slot : ℕ → ℕ → Bytes → ℕ → Bytes
slot start size m i = read_at (start + i * size) size m

-- Slots do not overlap, and lie inside the map.
pub slot_apart : (size i j : ℕ) → i < j → i * size + size ≤ j * size
slot_apart size i j h = grind arith

module _ (start size cap : ℕ) (m xs : Bytes) where
  pub slot-write_self :
      (i : ℕ)
      → i < cap
      → length xs ≡ size
      → start + cap * size ≤ length m
      → slot start size (write_at (start + i * size) xs m) i ≡ xs
  unfolding slot
  slot-write_self i h e l =
      read_at-write_at (start + i * size) size xs m (omega arith)
        (omega (arith, slot_apart size i cap h))

  pub slot-write_ne :
      (i j : ℕ)
      → i ≢ j
      → length xs ≡ size
      → slot start size (write_at (start + i * size) xs m) j ≡ slot start size m j
  unfolding slot
  slot-write_ne i j ne e = elim (dec_lt i j) [
    | yes h ↦
        read_at_after (start + j * size) size (start + i * size) xs m
          (omega (arith, slot_apart size i j h))
    | no h ↦
        read_at_before (start + j * size) size (start + i * size) xs m
          (omega (arith, slot_apart size j i (omega arith)))
  ]

  -- A write into the header leaves the slots.
  pub slot-write_header :
      (i j : ℕ) → i + length xs ≤ start → slot start size (write_at i xs m) j ≡ slot start size m j
  unfolding slot
  slot-write_header i j h = read_at_after (start + j * size) size i xs m (omega arith)

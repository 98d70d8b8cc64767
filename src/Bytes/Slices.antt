-- ===== src/Bytes/Slices.antt =====
-- Slices: a slice that was written is read back, and a slice beside it is not touched.
use infotact_python_project.Prelude.{
  ℕ, zero, suc, ◌+◌, ◌≤◌, [], ◌∷◌, ◌≡◌, refl, ap, ◌∙◌, ap₂, true, length, arith, take, length-take,
  ◌++◌, append-nil,
}
use infotact_python_project.Bytes.{Bytes, bytes_eq, read_at, overlay, write_at}

pub bytes_eq→eq : (a b : Bytes) → bytes_eq a b ≡ true → a ≡ b
unfolding bytes_eq
bytes_eq→eq [] [] h = refl
bytes_eq→eq [] (y ∷ b) h = cc
bytes_eq→eq (x ∷ a) [] h = cc
bytes_eq→eq (x ∷ a) (y ∷ b) h = ap₂ ◌∷◌ (ground arith) (bytes_eq→eq a b (ground arith))

pub bytes_eq_refl : (a : Bytes) → bytes_eq a a ≡ true
unfolding bytes_eq
bytes_eq_refl [] = refl
bytes_eq_refl (x ∷ a) = ground (arith, bytes_eq_refl a)

length-overlay : (xs bs : Bytes) → length (overlay xs bs) ≡ length bs
unfolding overlay
length-overlay [] bs = refl
length-overlay (x ∷ xs) [] = refl
length-overlay (x ∷ xs) (b ∷ bs) = ap suc (length-overlay xs bs)

pub length-write_at : (i : ℕ) (xs bs : Bytes) → length (write_at i xs bs) ≡ length bs
unfolding write_at
length-write_at zero xs bs = length-overlay xs bs
length-write_at (suc i) xs [] = refl
length-write_at (suc i) xs (b ∷ bs) = ap suc (length-write_at i xs bs)

pub length-read_at : (i n : ℕ) (bs : Bytes) → i + n ≤ length bs → length (read_at i n bs) ≡ n
unfolding read_at
length-read_at zero n bs h = omega (arith, length-take n bs)
length-read_at (suc i) n [] h = absurd (omega arith)
length-read_at (suc i) n (b ∷ bs) h = length-read_at i n bs (omega arith)

take-overlay : (xs bs : Bytes) → length xs ≤ length bs → take (length xs) (overlay xs bs) ≡ xs
unfolding overlay
take-overlay [] bs h = refl
take-overlay (x ∷ xs) [] h = absurd (omega arith)
take-overlay (x ∷ xs) (b ∷ bs) h = ap (◌∷◌ x) (take-overlay xs bs (omega arith))

pub read_at-write_at :
    (i n : ℕ) (xs bs : Bytes)
    → n ≡ length xs
    → i + n ≤ length bs
    → read_at i n (write_at i xs bs) ≡ xs
unfolding read_at write_at
read_at-write_at zero n xs bs e h = rw e (take-overlay xs bs (omega arith))
read_at-write_at (suc i) n xs [] e h = absurd (omega arith)
read_at-write_at (suc i) n xs (b ∷ bs) e h = read_at-write_at i n xs bs e (omega arith)

take_before : (n i : ℕ) (xs bs : Bytes) → n ≤ i → take n (write_at i xs bs) ≡ take n bs
unfolding write_at
take_before zero i xs bs h = refl
take_before (suc n) zero xs bs h = absurd (omega arith)
take_before (suc n) (suc i) xs [] h = refl
take_before (suc n) (suc i) xs (b ∷ bs) h = ap (◌∷◌ b) (take_before n i xs bs (omega arith))

pub read_at_before :
    (j n i : ℕ) (xs bs : Bytes) → j + n ≤ i → read_at j n (write_at i xs bs) ≡ read_at j n bs
unfolding read_at write_at
read_at_before zero n i xs bs h = take_before n i xs bs (omega arith)
read_at_before (suc j) n zero xs bs h = absurd (omega arith)
read_at_before (suc j) n (suc i) xs [] h = refl
read_at_before (suc j) n (suc i) xs (b ∷ bs) h = read_at_before j n i xs bs (omega arith)

read_after_overlay :
    (j n : ℕ) (xs bs : Bytes) → length xs ≤ j → read_at j n (overlay xs bs) ≡ read_at j n bs
unfolding read_at overlay
read_after_overlay j n [] bs h = refl
read_after_overlay j n (x ∷ xs) [] h = refl
read_after_overlay zero n (x ∷ xs) (b ∷ bs) h = absurd (omega arith)
read_after_overlay (suc j) n (x ∷ xs) (b ∷ bs) h = read_after_overlay j n xs bs (omega arith)

pub read_at_after :
    (j n i : ℕ) (xs bs : Bytes)
    → i + length xs ≤ j
    → read_at j n (write_at i xs bs) ≡ read_at j n bs
unfolding read_at write_at
read_at_after j n zero xs bs h = read_after_overlay j n xs bs (omega arith)
read_at_after zero n (suc i) xs bs h = absurd (omega arith)
read_at_after (suc j) n (suc i) xs [] h = refl
read_at_after (suc j) n (suc i) xs (b ∷ bs) h = read_at_after j n i xs bs (omega arith)

take-overlay_short :
    (n : ℕ) (xs bs : Bytes)
    → n ≤ length xs
    → length xs ≤ length bs
    → take n (overlay xs bs) ≡ take n xs
unfolding overlay
take-overlay_short zero xs bs h k = refl
take-overlay_short (suc n) [] bs h k = absurd (omega arith)
take-overlay_short (suc n) (x ∷ xs) [] h k = absurd (omega arith)
take-overlay_short (suc n) (x ∷ xs) (b ∷ bs) h k =
    ap (◌∷◌ x) (take-overlay_short n xs bs (omega arith) (omega arith))

-- A slice inside the first one that was written.
pub read_overlay :
    (j n : ℕ) (xs bs : Bytes)
    → j + n ≤ length xs
    → length xs ≤ length bs
    → read_at j n (write_at 0 xs bs) ≡ read_at j n xs
unfolding read_at write_at
read_overlay zero n xs bs h k = take-overlay_short n xs bs (omega arith) k
read_overlay (suc j) n [] bs h k = absurd (omega arith)
read_overlay (suc j) n (x ∷ xs) [] h k = absurd (omega arith)
read_overlay (suc j) n (x ∷ xs) (b ∷ bs) h k = read_overlay j n xs bs (omega arith) (omega arith)

-- The fields of a packed record, found by the lengths of those before them.
pub read_first : (n : ℕ) (xs ys : Bytes) → length xs ≡ n → read_at 0 n (xs ++ ys) ≡ xs
unfolding read_at
read_first zero [] ys h = refl
read_first (suc n) [] ys h = absurd (omega arith)
read_first zero (x ∷ xs) ys h = absurd (omega arith)
read_first (suc n) (x ∷ xs) ys h = ap (◌∷◌ x) (read_first n xs ys (omega arith))

pub read_later :
    (k i n : ℕ) (xs ys : Bytes) → k ≡ length xs + i → read_at k n (xs ++ ys) ≡ read_at i n ys
unfolding read_at
read_later k i n [] ys h = ap (λ j. read_at j n ys) (omega arith)
read_later zero i n (x ∷ xs) ys h = absurd (omega arith)
read_later (suc k) i n (x ∷ xs) ys h = read_later k i n xs ys (omega arith)

pub read_whole : (n : ℕ) (xs : Bytes) → length xs ≡ n → read_at 0 n xs ≡ xs
read_whole n xs h = rw (append-nil xs) at (read_first n xs [] h)

-- A slice inside one that was written anywhere.
pub read_inside :
    (i j k n : ℕ) (xs bs : Bytes)
    → k ≡ i + j
    → j + n ≤ length xs
    → i + length xs ≤ length bs
    → read_at k n (write_at i xs bs) ≡ read_at j n xs
unfolding read_at write_at
read_inside zero j k n xs bs e h l =
    ap (λ p. read_at p n (overlay xs bs)) {y = j} (omega arith)
    ∙ read_overlay j n xs bs h (omega arith)
read_inside (suc i) j zero n xs bs e h l = absurd (omega arith)
read_inside (suc i) j (suc k) n xs [] e h l = absurd (omega arith)
read_inside (suc i) j (suc k) n xs (b ∷ bs) e h l =
    read_inside i j k n xs bs (omega arith) h (omega arith)

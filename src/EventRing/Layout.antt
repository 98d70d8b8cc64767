-- ===== src/EventRing/Layout.antt =====
-- The counters in the header of src/ipc/mmap_buffer.py: what is packed is unpacked, and the writes
-- elsewhere leave it.
use infotact_python_project.Prelude.{
  ℕ, ◌+◌, ◌^◌, ◌≤◌, ◌<◌, ◌++◌, length, length-append, ◌≡◌, refl, sym, ap, ◌∙◌, arith,
}
use infotact_python_project.Bytes.{Bytes, encode, decode, read_at, write_at}
use infotact_python_project.Bytes.Ints.{length-encode, decode-encode}
use infotact_python_project.Bytes.Slices.{
  read_first, read_later, read_whole, read_inside, read_at_before, read_at_after, read_at-write_at,
}

abbrev pub head : Bytes → ℕ
head m = decode (read_at 22 8 m)

abbrev pub tail : Bytes → ℕ
tail m = decode (read_at 30 8 m)

abbrev pub dropped : Bytes → ℕ
dropped m = decode (read_at 38 8 m)

abbrev pub counters : ℕ → ℕ → ℕ → Bytes
counters h t d = encode 8 h ++ (encode 8 t ++ encode 8 d)

module _ (h t d : ℕ) (m : Bytes) (long : 46 ≤ length m) where
  pub length-counters : length (counters h t d) ≡ 24
  length-counters = omega (
    arith,
    length-append (encode 8 h) (encode 8 t ++ encode 8 d),
    length-append (encode 8 t) (encode 8 d),
    length-encode 8 h,
    length-encode 8 t,
    length-encode 8 d,
  )

  at_counter :
      (j : ℕ)
      → j + 8 ≤ 24
      → read_at (22 + j) 8 (write_at 22 (counters h t d) m) ≡ read_at j 8 (counters h t d)
  at_counter j k =
      read_inside 22 j (22 + j) 8 (counters h t d) m refl (omega (arith, length-counters))
        (omega (arith, length-counters))

  pub head-counters : h < 2 ^ 64 → head (write_at 22 (counters h t d) m) ≡ h
  head-counters k =
      ap decode (at_counter 0 (omega arith) ∙ read_first 8 (encode 8 h) _ (length-encode 8 h))
      ∙ decode-encode 8 h k

  pub tail-counters : t < 2 ^ 64 → tail (write_at 22 (counters h t d) m) ≡ t
  tail-counters k =
      ap decode (
        at_counter 8 (omega arith)
        ∙ read_later 8 0 8 (encode 8 h) _ (omega (arith, length-encode 8 h))
        ∙ read_first 8 (encode 8 t) _ (length-encode 8 t))
      ∙ decode-encode 8 t k

  pub dropped-counters : d < 2 ^ 64 → dropped (write_at 22 (counters h t d) m) ≡ d
  dropped-counters k =
      ap decode (
        at_counter 16 (omega arith)
        ∙ read_later 16 8 8 (encode 8 h) _ (omega (arith, length-encode 8 h))
        ∙ read_later 8 0 8 (encode 8 t) _ (omega (arith, length-encode 8 t))
        ∙ read_whole 8 (encode 8 d) (length-encode 8 d))
      ∙ decode-encode 8 d k

module _ (t : ℕ) (m : Bytes) (long : 46 ≤ length m) where
  pub head-tail : head (write_at 30 (encode 8 t) m) ≡ head m
  head-tail = ap decode (read_at_before 22 8 30 (encode 8 t) m (omega arith))

  pub tail-tail : t < 2 ^ 64 → tail (write_at 30 (encode 8 t) m) ≡ t
  tail-tail k =
      ap decode (read_at-write_at 30 8 (encode 8 t) m (sym (length-encode 8 t)) (omega arith))
      ∙ decode-encode 8 t k

  pub dropped-tail : dropped (write_at 30 (encode 8 t) m) ≡ dropped m
  dropped-tail = ap decode (read_at_after 38 8 30 (encode 8 t) m (omega (arith, length-encode 8 t)))

-- ===== src/FileRing/Layout.antt =====
-- The header of src/ipc/ring_buffer.py: what is packed is unpacked.
use infotact_python_project.Prelude.{
  ℕ, ◌+◌, ◌^◌, ◌≤◌, ◌<◌, lt→ltb, ◌++◌, length, length-append, ok, ◌≡◌, refl, ◌∙◌, arith,
}
use infotact_python_project.Bytes.{Bytes, encode, read_at, write_at}
use infotact_python_project.Bytes.Ints.{length-encode, decode-encode}
use infotact_python_project.Bytes.Slices.{read_first, read_later, read_whole, read_overlay}
use infotact_python_project.FileRing.{magic, header_size, unpack_header, header_bytes, pack_header}

pub pack_header_fits :
    (c r w n : ℕ)
    → c < 2 ^ 32
    → r < 2 ^ 32
    → w < 2 ^ 32
    → n < 2 ^ 32
    → pack_header c r w n ≡ ok (header_bytes c r w n)
unfolding pack_header
pack_header_fits c r w n hc hr hw hn =
    rw (lt→ltb c _ hc, lt→ltb r _ hr, lt→ltb w _ hw, lt→ltb n _ hn)

module _ (c r w n : ℕ) where
  pub length-header_bytes : length (header_bytes c r w n) ≡ header_size
  unfolding header_bytes
  length-header_bytes = omega (
    arith,
    length-append magic (encode 4 c ++ (encode 4 r ++ (encode 4 w ++ encode 4 n))),
    length-append (encode 4 c) (encode 4 r ++ (encode 4 w ++ encode 4 n)),
    length-append (encode 4 r) (encode 4 w ++ encode 4 n),
    length-append (encode 4 w) (encode 4 n),
    length-encode 4 c,
    length-encode 4 r,
    length-encode 4 w,
    length-encode 4 n,
  )

  module _ (m : Bytes) (long : header_size ≤ length m) where
    field_at :
        (i k : ℕ)
        → i + k ≤ 24
        → read_at i k (write_at 0 (header_bytes c r w n) m) ≡ read_at i k (header_bytes c r w n)
    field_at i k h =
        read_overlay i k (header_bytes c r w n) m (omega (arith, length-header_bytes))
          (omega (arith, length-header_bytes))

    pub unpack-write_header :
        c < 2 ^ 32
        → r < 2 ^ 32
        → w < 2 ^ 32
        → n < 2 ^ 32
        → unpack_header (write_at 0 (header_bytes c r w n) m)
          ≡ record { signature = magic; capacity = c; read_idx = r; write_idx = w; count = n }
    unfolding unpack_header header_bytes
    unpack-write_header hc hr hw hn = rw (
      field_at 0 8 (omega arith) ∙ read_first 8 magic _ refl,
      field_at 8 4 (omega arith)
          ∙ read_later 8 0 4 magic _ refl
          ∙ read_first 4 (encode 4 c) _ (length-encode 4 c),
      field_at 12 4 (omega arith)
          ∙ read_later 12 4 4 magic _ refl
          ∙ read_later 4 0 4 (encode 4 c) _ (omega (arith, length-encode 4 c))
          ∙ read_first 4 (encode 4 r) _ (length-encode 4 r),
      field_at 16 4 (omega arith)
          ∙ read_later 16 8 4 magic _ refl
          ∙ read_later 8 4 4 (encode 4 c) _ (omega (arith, length-encode 4 c))
          ∙ read_later 4 0 4 (encode 4 r) _ (omega (arith, length-encode 4 r))
          ∙ read_first 4 (encode 4 w) _ (length-encode 4 w),
      field_at 20 4 (omega arith)
          ∙ read_later 20 12 4 magic _ refl
          ∙ read_later 12 8 4 (encode 4 c) _ (omega (arith, length-encode 4 c))
          ∙ read_later 8 4 4 (encode 4 r) _ (omega (arith, length-encode 4 r))
          ∙ read_later 4 0 4 (encode 4 w) _ (omega (arith, length-encode 4 w))
          ∙ read_whole 4 (encode 4 n) (length-encode 4 n),
      decode-encode 4 c hc,
      decode-encode 4 r hr,
      decode-encode 4 w hw,
      decode-encode 4 n hn,
    )

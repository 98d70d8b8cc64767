-- ===== src/Processor/Format.antt =====
-- The binary format of src/data_processing/processor.py: a packed order is read back unchanged.
use infotact_python_project.Prelude.{
  ℕ, ◌∙◌, ltb→lt, lt→ltb, ◌>>=◌, ◌+◌, ◌<◌, ◌^◌, true, ◌||◌, if◌then◌else◌, ltb, ◌==◌, none, ◌++◌,
  length, length-append, ok, err, ℤ, pos, negsuc, ◌≡◌, refl, ap, arith, ◌⊎◌, inl, inr, Bool-cases,
}
use infotact_python_project.Bytes.{Bytes, encode, decode, read_at, bytes_eq}
use infotact_python_project.Bytes.Ints.{length-encode, decode-encode}
use infotact_python_project.Bytes.Slices.{read_first, read_later, read_whole}
use infotact_python_project.Bytes.Slices.{bytes_eq→eq}
use infotact_python_project.Float.{PriceFormat}
use infotact_python_project.Processor.{
  Text, Order, Request, Processor, upper, buy_text, sell_text, buy, sell, pack_u64, pack_fields,
  pack_order, unpack_order, process_order, order_size, struct_error,
}
use infotact_python_project.Processor.Create.{
  create_order_cases, create_order-Accepts, created, Accepts,
}

-- The record: order_id, side, price, quantity, timestamp.
record Layout (a b c d e bs : Bytes) : Type 0 where
  size : length bs ≡ 33
  id_bytes : read_at 0 8 bs ≡ a
  side_byte : read_at 8 1 bs ≡ b
  price_bytes : read_at 9 8 bs ≡ c
  quantity_bytes : read_at 17 8 bs ≡ d
  timestamp_bytes : read_at 25 8 bs ≡ e

layout :
    (a b c d e : Bytes)
    → length a ≡ 8
    → length b ≡ 1
    → length c ≡ 8
    → length d ≡ 8
    → length e ≡ 8
    → Layout a b c d e (a ++ (b ++ (c ++ (d ++ e))))
layout a b c d e la lb lc ld le = record {
  size = omega (
    arith,
    length-append a (b ++ (c ++ (d ++ e))),
    length-append b (c ++ (d ++ e)),
    length-append c (d ++ e),
    length-append d e,
  );
  id_bytes = read_first 8 a _ la;
  side_byte = read_later 8 0 1 a _ (omega arith) ∙ read_first 1 b _ lb;
  price_bytes =
      read_later 9 1 8 a _ (omega arith) ∙ read_later 1 0 8 b _ (omega arith) ∙ read_first 8 c _ lc;
  quantity_bytes =
      read_later 17 9 8 a _ (omega arith)
      ∙ read_later 9 8 8 b _ (omega arith)
      ∙ read_later 8 0 8 c _ (omega arith)
      ∙ read_first 8 d _ ld;
  timestamp_bytes =
      read_later 25 17 8 a _ (omega arith)
      ∙ read_later 17 16 8 b _ (omega arith)
      ∙ read_later 16 8 8 c _ (omega arith)
      ∙ read_later 8 0 8 d _ (omega arith)
      ∙ read_whole 8 e le;
}

-- What `struct` can pack in the format `Q`.
abbrev pub FitsU64 : ℤ → Type 0
FitsU64 z = (n : ℕ) × (z ≡ pos n) × (n < 2 ^ 64)

pack_u64_cases : (z : ℤ) → FitsU64 z ⊎ (pack_u64 z ≡ err struct_error)
unfolding pack_u64
pack_u64_cases (negsuc n) = inr refl
pack_u64_cases (pos n) = elim (Bool-cases (ltb n (2 ^ 64))) [
  | inl h ↦ inl (n, refl, ltb→lt n (2 ^ 64) h)
  | inr h ↦ inr (rw h)
]

pack_u64_fits : (n : ℕ) → n < 2 ^ 64 → pack_u64 (pos n) ≡ ok (encode 8 n)
unfolding pack_u64
pack_u64_fits n h = rw (lt→ltb n (2 ^ 64) h)

module _ {ℓ} {P : Type ℓ} (f : PriceFormat P) where
  pub record IsPackable (o : Order P) : Type 0 where
    pub order_id : FitsU64 o.order_id
    pub quantity : FitsU64 o.quantity
    pub timestamp_ns : FitsU64 o.timestamp_ns

  abbrev pub IsSide : Text → Type 0
  IsSide s = (s ≡ buy_text) ⊎ (s ≡ sell_text)

  abbrev side_value : Text → ℕ
  side_value s = if bytes_eq s buy_text then buy else sell

  side_back :
      (s : Text)
      → IsSide s
      → (if decode (encode 1 (side_value s)) == buy then buy_text else sell_text) ≡ s
  unfolding bytes_eq decode encode
  side_back s (inl h) = rw h
  side_back s (inr h) = rw h

  abbrev packed : Order P → ℕ → ℕ → ℕ → Bytes
  packed o i q t =
      encode 8 i ++ (encode 1 (side_value o.side) ++ (f.pack o.price ++ (encode 8 q ++ encode 8 t)))

  misfit : (z : ℤ) → FitsU64 z → pack_u64 z ≡ err struct_error → ⊥
  misfit z (n, e, h) k = cc (pack_u64_fits n h)

  pack_fields_fits :
      (o : Order P) (i q t : ℕ)
      → pack_u64 o.order_id ≡ ok (encode 8 i)
      → pack_u64 o.quantity ≡ ok (encode 8 q)
      → pack_u64 o.timestamp_ns ≡ ok (encode 8 t)
      → pack_fields f o ≡ ok (packed o i q t)
  unfolding pack_fields
  pack_fields_fits o i q t a b c = rw (a, b, c, ◌>>=◌)

  fits_packs : (z : ℤ) (n : ℕ) → z ≡ pos n → n < 2 ^ 64 → pack_u64 z ≡ ok (encode 8 n)
  fits_packs z n e h = ap pack_u64 e ∙ pack_u64_fits n h

  pack_fields_cases :
      (o : Order P)
      → ((i q t : ℕ) × (o.order_id ≡ pos i)
          × (o.quantity ≡ pos q)
          × (o.timestamp_ns ≡ pos t)
          × (i < 2 ^ 64)
          × (q < 2 ^ 64)
          × (t < 2 ^ 64))
        ⊎ ((¬ IsPackable o) × (pack_fields f o ≡ err struct_error))
  unfolding pack_fields
  pack_fields_cases o = elim (pack_u64_cases o.order_id) [
    | inr h ↦ inr (λ k. misfit o.order_id k.order_id h, rw (h, ◌>>=◌))
    | inl (i, ei, hi) ↦ elim (pack_u64_cases o.quantity) [
      | inr h ↦
          inr (λ k. misfit o.quantity k.quantity h, rw (fits_packs o.order_id i ei hi, h, ◌>>=◌))
      | inl (q, eq, hq) ↦ elim (pack_u64_cases o.timestamp_ns) [
        | inr h ↦ inr (
          λ k. misfit o.timestamp_ns k.timestamp_ns h,
          rw (fits_packs o.order_id i ei hi, fits_packs o.quantity q eq hq, h, ◌>>=◌),
        )
        | inl (t, et, ht) ↦ inl (i, q, t, ei, eq, et, hi, hq, ht)
      ]
    ]
  ]

  unpack_order-packed :
      (o : Order P) (i q t : ℕ)
      → IsSide o.side
      → o.order_id ≡ pos i
      → o.quantity ≡ pos q
      → o.timestamp_ns ≡ pos t
      → i < 2 ^ 64
      → q < 2 ^ 64
      → t < 2 ^ 64
      → (length (packed o i q t) ≡ order_size) × (unpack_order f (packed o i q t) ≡ ok o)
  unfolding unpack_order
  unpack_order-packed o i q t s ei eq et hi hq ht = (
    l.size,
    rw
        (
          l.size,
          l.id_bytes,
          l.side_byte,
          l.price_bytes,
          l.quantity_bytes,
          l.timestamp_bytes,
          decode-encode 8 i hi,
          decode-encode 8 q hq,
          decode-encode 8 t ht,
          f.unpack-pack o.price,
          side_back o.side s,
        )
        (cc),
  )
    where
      l :
          Layout
            (encode 8 i)
            (encode 1 (side_value o.side))
            (f.pack o.price)
            (encode 8 q)
            (encode 8 t)
            (packed o i q t)
      l =
          layout (encode 8 i) (encode 1 (side_value o.side)) (f.pack o.price) (encode 8 q)
            (encode 8 t) (length-encode 8 i) (length-encode 1 (side_value o.side))
            (f.length-pack o.price) (length-encode 8 q) (length-encode 8 t)

  -- An order of a proper side is packed into 33 bytes exactly when its numbers fit 64 bits, and
  -- then `unpack_order` gives the same order back and the counter grows by one. Otherwise the
  -- packing raises `struct.error`, and the counter stays.
  pub unpack_order-pack_order :
      (o : Order P) (p : Processor)
      → IsSide o.side
      → (IsPackable o
          × ((bs : Bytes) × (pack_order f o p
                ≡ (ok bs, record { processed_count = p.processed_count + 1 }))
              × (length bs ≡ order_size)
              × (unpack_order f bs ≡ ok o)))
        ⊎ ((¬ IsPackable o) × (pack_order f o p ≡ (err struct_error, p)))
  unfolding pack_order
  unpack_order-pack_order o p s = elim (pack_fields_cases o) [
    | inr (no_fit, e) ↦ inr (no_fit, rw (e, pack_order))
    | inl (i, q, t, ei, eq, et, hi, hq, ht) ↦
        let packs =
          pack_fields_fits o i q t (fits_packs o.order_id i ei hi) (fits_packs o.quantity q eq hq)
            (fits_packs o.timestamp_ns t et ht) in
        let back = unpack_order-packed o i q t s ei eq et hi hq ht in
        inl (
          record { order_id = (i, ei, hi); quantity = (q, eq, hq); timestamp_ns = (t, et, ht) },
          (packed o i q t, rw (packs, pack_order), back.0, back.1),
        )
  ]

  IsSide-upper : (s : Text) → (bytes_eq s buy_text || bytes_eq s sell_text) ≡ true → IsSide s
  IsSide-upper s h = elim (Bool-cases (bytes_eq s buy_text)) [
    | inl b ↦ inl (bytes_eq→eq s buy_text b)
    | inr b ↦ inr (bytes_eq→eq s sell_text (rw b at h))
  ]

  -- Whatever `process_order` packs, the other end unpacks into the order that `create_order` made
  -- of the request at the clock reading.
  pub unpack_order-process_order :
      (r : Request P) (now : ℤ) (p q : Processor) (bs : Bytes)
      → process_order f r now p ≡ (ok bs, q)
      → Accepts f r
        × (length bs ≡ order_size)
        × (unpack_order f bs ≡ ok (created f r none now))
        × (q.processed_count ≡ p.processed_count + 1)
  unfolding process_order
  unpack_order-process_order r now p q bs h = elim (create_order_cases f r none now) [
    | inr (e, raised) ↦ absurd (cc (rw (raised, process_order) at h))
    | inl a ↦
        let k = rw (create_order-Accepts f r none now a, process_order) at h in
        elim (unpack_order-pack_order (created f r none now) p
          (IsSide-upper (upper r.side) a.side)) [
            | inr (no_fit, e) ↦ absurd (cc)
            | inl (fit, (cs, e, size, back)) ↦ (a, ground arith, ground arith, ground arith)
          ]
  ]

-- ===== src/FileRing/Accepted.antt =====
-- The constructor of src/ipc/ring_buffer.py on any file: what it accepts, and what it makes of it.
use infotact_python_project.Prelude.{
  >>=-returns, ok-injective, subst, ℕ, ◌+◌, ◌*◌, ◌^◌, ◌≤◌, ◌<◌, Bool, true, false, ◌==◌, Option,
  none, some, [], ◌∷◌, length, length-replicate, replicate, ok, ◌≡◌, refl, sym, ap, ◌∙◌, arith,
  Bool-cases, inl, inr, ◌⊎◌, ltb, if◌then◌else◌, err,
}
use infotact_python_project.Bytes.{Bytes, bytes_eq, read_at, write_at}
use infotact_python_project.Bytes.Slices.{bytes_eq→eq, length-write_at}
use infotact_python_project.FileRing.{
  Ring, magic, header_size, record_size, unpack_header, header_bytes, open_ring, open_file, Error,
  invalid_file, invalid_header, initialize, pack_header, check_metadata, bad_metadata, Header,
}
use infotact_python_project.FileRing.Layout.{unpack-write_header}
use infotact_python_project.FileRing.Invariant.{IsValid, header}
use infotact_python_project.FileRing.Refine.{contents}
use infotact_python_project.FileRing.Opening.{
  Passes, zeros-ne-magic, new_ring_empty, new_map, new_ring, new_ring-IsValid,
}

-- What the constructor guarantees of any ring that it returns, whatever file it found.
pub record IsChecked (r : Ring) : Type 0 where
  pub opened : r.closed ≡ false
  pub signature : (header r).signature ≡ magic
  pub same_capacity : r.capacity ≡ (header r).capacity
  pub some_slots : 0 < (header r).capacity
  pub size : length r.map ≡ header_size + (header r).capacity * record_size
  pub read_in : (header r).read_idx < (header r).capacity
  pub write_in : (header r).write_idx < (header r).capacity
  pub count_in : (header r).count ≤ (header r).capacity

good→Passes : (m : Bytes) (h : Header) → bad_metadata m h ≡ false → Passes m h
unfolding bad_metadata
good→Passes m h g = record {
  signature = bytes_eq→eq h.signature magic (ground arith);
  some_slots = ground arith;
  size = ground arith;
  read_in = ground arith;
  write_in = ground arith;
  count_in = ground arith;
}

check_metadata-IsChecked : (m : Bytes) (r : Ring) → check_metadata m ≡ ok r → IsChecked r
unfolding check_metadata
check_metadata-IsChecked m r h = elim (Bool-cases (bad_metadata m (unpack_header m))) [
  | inl bad ↦ absurd (cc (rw (bad, check_metadata) at h))
  | inr good ↦
      let p = good→Passes m (unpack_header m) good in
      subst IsChecked (ok-injective _ _ (rw good at h)) (record {
        opened = refl;
        signature = p.signature;
        same_capacity = refl;
        some_slots = p.some_slots;
        size = p.size;
        read_in = p.read_in;
        write_in = p.write_in;
        count_in = p.count_in;
      })
]

check_metadata_ring :
    (m : Bytes) (r : Ring)
    → check_metadata m ≡ ok r
    → r ≡ record { capacity = (unpack_header m).capacity; closed = false; map = m }
unfolding check_metadata
check_metadata_ring m r h = elim (Bool-cases (bad_metadata m (unpack_header m))) [
  | inl bad ↦ absurd (cc (rw (bad, check_metadata) at h))
  | inr good ↦ sym (ok-injective _ _ (rw good at h))
]

-- There is no file, or it does not begin with the magic.
abbrev pub NoMagic : Option Bytes → Type 0
NoMagic none = Unit
NoMagic (some bs) = bytes_eq (read_at 0 8 bs) magic ≡ false

-- What is mapped is the file, or zeros if there is none or it is empty.
found :
    (bs m : Bytes) (e : Error) {K : Type 0}
    → (if ltb (length bs) header_size then err e else ok bs) ≡ ok m
    → (header_size ≤ length m) × ((some bs ≡ some m) ⊎ K)
found bs m e h = elim (Bool-cases (ltb (length bs) header_size)) [
  | inl short ↦ absurd (cc (rw short at h))
  | inr long ↦
      let same = ok-injective bs m (rw long at h) in
      (subst (λ b. header_size ≤ length b) same (ground (arith, long)), inl (ap some same))
]

open_file_cases :
    (capacity : ℕ) (create : Bool) (file : Option Bytes) (m : Bytes)
    → open_file capacity create file ≡ ok m
    → (header_size ≤ length m)
      × ((file ≡ some m)
          ⊎ ((create ≡ true)
              × NoMagic file
              × (m ≡ replicate (header_size + capacity * record_size) 0)))
unfolding open_file bytes_eq read_at
open_file_cases capacity true none m h =
    let e = ok-injective _ m h in
    (
      omega (
        arith,
        sym (ap length e),
        length-replicate {A = ℕ} (header_size + capacity * record_size) 0,
      ),
      inr (refl, tt, sym e),
    )
open_file_cases capacity true (some []) m h =
    let e = ok-injective _ m h in
    (
      omega (
        arith,
        sym (ap length e),
        length-replicate {A = ℕ} (header_size + capacity * record_size) 0,
      ),
      inr (refl, refl, sym e),
    )
open_file_cases capacity true (some (b ∷ bs)) m h = found (b ∷ bs) m invalid_file h
open_file_cases capacity false none m h = cc
open_file_cases capacity false (some bs) m h = found bs m invalid_header h

initialize_kept :
    (capacity : ℕ) (create : Bool) (m m' : Bytes)
    → bytes_eq (read_at 0 8 m) magic ≡ true
    → initialize capacity create m ≡ ok m'
    → m ≡ m'
unfolding initialize
initialize_kept capacity create m m' e h = ok-injective _ _ (rw e at h)

pack_header_small :
    (capacity : ℕ) (bytes : Bytes)
    → pack_header capacity 0 0 0 ≡ ok bytes
    → (capacity < 2 ^ 32) × (header_bytes capacity 0 0 0 ≡ bytes)
unfolding pack_header
pack_header_small capacity bytes h = elim (Bool-cases (ltb capacity (2 ^ 32))) [
  | inr large ↦ absurd (cc (rw large at h))
  | inl small ↦ (ground (arith, small), ok-injective _ _ (rw small at h))
]

initialize_fresh :
    (capacity : ℕ) (create : Bool) (m m' : Bytes)
    → bytes_eq (read_at 0 8 m) magic ≡ false
    → initialize capacity create m ≡ ok m'
    → (create ≡ true)
      × (capacity < 2 ^ 32)
      × (m' ≡ write_at 0 (header_bytes capacity 0 0 0) (replicate (length m) 0))
unfolding initialize
initialize_fresh capacity false m m' e h = absurd (cc (rw e at h))
initialize_fresh capacity true m m' e h =
    let (bytes, k, l) = >>=-returns (pack_header capacity 0 0 0) _ (rw e at h) in
    let (small, same) = pack_header_small capacity bytes k in
    (
      refl,
      small,
      sym (ok-injective _ m' l) ∙ ap (λ b. write_at 0 b (replicate (length m) 0)) (sym same),
    )

fresh_ring :
    (capacity : ℕ) (m m' : Bytes) (r : Ring)
    → (k : 0 < capacity) → (small : capacity < 2 ^ 32) → header_size ≤ length m
    → m' ≡ write_at 0 (header_bytes capacity 0 0 0) (replicate (length m) 0)
    → check_metadata m' ≡ ok r
    → r ≡ new_ring capacity k small
fresh_ring capacity m m' r k small long e h =
    ring ∙ (λ i. record { capacity = same_capacity i; closed = false; map = same_map i })
  where
    zeroed : Bytes
    zeroed = replicate (length m) 0

    ring : r ≡ record { capacity = (unpack_header m').capacity; closed = false; map = m' }
    ring = check_metadata_ring m' r h

    same_capacity : (unpack_header m').capacity ≡ capacity
    same_capacity =
        ap (λ b. (unpack_header b).capacity) e
        ∙ ap (λ f. f.capacity)
            (unpack-write_header capacity 0 0 0 zeroed
              (omega (arith, long, length-replicate {A = ℕ} (length m) 0)) small (omega arith)
              (omega arith) (omega arith))

    size : length m ≡ header_size + capacity * record_size
    size =
        sym (
          ap length e
          ∙ length-write_at 0 (header_bytes capacity 0 0 0) zeroed
          ∙ length-replicate (length m) 0)
        ∙ sym (ap (λ s. length s.map) ring)
        ∙ (check_metadata-IsChecked m' r h).size
        ∙ ap (λ s. header_size + (header s).capacity * record_size) ring
        ∙ ap (λ n. header_size + n * record_size) same_capacity

    same_map : m' ≡ new_map capacity k small
    same_map = e ∙ ap (λ n. write_at 0 (header_bytes capacity 0 0 0) (replicate n 0)) size

-- A file that the constructor accepts is either taken as it stands, and then it begins with the
-- magic, has the size of its capacity, which is not 0, and its indices and its count are within
-- the capacity. Or the caller creates, there is no file or it does not begin with the magic, and
-- the ring is well-formed and empty, of the capacity that was asked for: what another file had
-- is lost.
pub open_ring_cases :
    (capacity : ℕ) (create : Bool) (file : Option Bytes) (r : Ring)
    → open_ring capacity create file ≡ ok r
    → IsChecked r
      × ((file ≡ some r.map)
          ⊎ ((create ≡ true)
              × NoMagic file
              × (IsValid r × (r.capacity ≡ capacity) × (contents r ≡ []))))
unfolding open_ring
open_ring_cases capacity create file r h = elim (Bool-cases (capacity == 0)) [
  | inl zero_slots ↦ absurd (cc (rw (zero_slots, open_ring) at h))
  | inr some_slots ↦
      let (m, f, k) = >>=-returns (open_file capacity create file) _ (rw some_slots at h) in
      let (m', i, l) = >>=-returns (initialize capacity create m) _ k in
      (
        check_metadata-IsChecked m' r l,
        origin m m' (ground (arith, some_slots)) (open_file_cases capacity create file m f) i l,
      )
]
  where
    Fresh : Ring → Type 0
    Fresh s = IsValid s × (s.capacity ≡ capacity) × (contents s ≡ [])

    origin :
        (m m' : Bytes)
        → 0 < capacity
        → (header_size ≤ length m)
          × ((file ≡ some m)
              ⊎ ((create ≡ true)
                  × NoMagic file
                  × (m ≡ replicate (header_size + capacity * record_size) 0)))
        → initialize capacity create m ≡ ok m'
        → check_metadata m' ≡ ok r
        → (file ≡ some r.map) ⊎ ((create ≡ true) × NoMagic file × Fresh r)
    origin m m' k (long, from) i l = elim (Bool-cases (bytes_eq (read_at 0 8 m) magic)) [
      | inr no_magic ↦
          let (creates, small, e) = initialize_fresh capacity create m m' no_magic i in
          inr (
            creates,
            elim from [
              | inl same ↦ subst NoMagic (sym same) no_magic
              | inr (_, missing, _) ↦ missing
            ],
            subst Fresh (sym (fresh_ring capacity m m' r k small long e l))
                (new_ring-IsValid capacity k small, refl, new_ring_empty capacity k small),
          )
      | inl has_magic ↦ elim from [
        | inl same ↦ inl (
            same
            ∙ ap some (
                initialize_kept capacity create m m' has_magic i
                ∙ sym (ap (λ s. s.map) (check_metadata_ring m' r l))))
        | inr (_, _, zeroed) ↦
            let no_magic = zeros-ne-magic (header_size + capacity * record_size) (omega arith) in
            absurd (cc (zeroed, no_magic))
      ]
    ]

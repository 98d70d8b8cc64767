-- ===== src/Repository/Rows.antt =====
-- The rows of src/persistence/repository.py: `INSERT OR IGNORE` keeps one for each trade id, and
-- those that were there stay.
use infotact_python_project.Prelude.{
  ◌+◌, ◌≤◌, Bool, true, false, if◌then◌else◌, ◌||◌, List, [], ◌∷◌, ◌++◌, length, map, ◌≡◌, refl,
  sym, subst, ap, ◌∙◌, arith, All, length-append, Bool-cases, inl, inr, append-nil, append_assoc,
}
use infotact_python_project.Bytes.{bytes_eq}
use infotact_python_project.Bytes.Slices.{bytes_eq_refl, bytes_eq→eq}
use infotact_python_project.Processor.{Text}
use infotact_python_project.Repository.{TradeRecord, has_id, insert_or_ignore, insert_all}

other_way : (a b : Text) → bytes_eq a b ≡ false → bytes_eq b a ≡ false
other_way a b h = elim (Bool-cases (bytes_eq b a)) [
  | inr e ↦ e
  | inl e ↦
      absurd
        (apart (subst (λ c. bytes_eq a c ≡ true) (sym (bytes_eq→eq b a e)) (bytes_eq_refl a)) h)
]
  where
    apart : {t : Bool} → t ≡ true → t ≡ false → ⊥
    apart h k = cc

unfoldable pub is_seen : Text → List Text → Bool
is_seen i [] = false
is_seen i (j ∷ seen) = bytes_eq j i || is_seen i seen

module _ {ℓ} {P : Type ℓ} where
  abbrev pub trade_ids : List (TradeRecord P) → List Text
  trade_ids rows = map (λ r. r.trade_id) rows

  -- The first row of each trade id that has not been seen.
  unfoldable pub new_rows : List Text → List (TradeRecord P) → List (TradeRecord P)
  new_rows seen [] = []
  new_rows seen (r ∷ rows) =
      if is_seen r.trade_id seen then new_rows seen rows else r ∷ new_rows (r.trade_id ∷ seen) rows

  -- No two rows have one trade id.
  abbrev pub OnePerId : List (TradeRecord P) → Type 0
  OnePerId [] = Unit
  OnePerId (r ∷ rows) = (has_id r.trade_id rows ≡ false) × OnePerId rows

  abbrev pub Has : List (TradeRecord P) → TradeRecord P → Type 0
  Has table r = has_id r.trade_id table ≡ true

  has_id-append :
      (i : Text) (xs ys : List (TradeRecord P)) → has_id i (xs ++ ys) ≡ (has_id i xs || has_id i ys)
  unfolding has_id
  has_id-append i [] ys = refl
  has_id-append i (x ∷ xs) ys = elim (Bool-cases (bytes_eq x.trade_id i)) [
    | inl e ↦ rw e refl
    | inr e ↦ rw e (has_id-append i xs ys)
  ]

  has_id-is_seen :
      (i : Text) (table : List (TradeRecord P)) → has_id i table ≡ is_seen i (trade_ids table)
  unfolding has_id is_seen
  has_id-is_seen i [] = refl
  has_id-is_seen i (r ∷ table) = ap (λ b. bytes_eq r.trade_id i || b) (has_id-is_seen i table)

  seen_too :
      (r : TradeRecord P) (seen : List Text) (table : List (TradeRecord P))
      → ((i : Text) → has_id i table ≡ is_seen i seen)
      → (i : Text) → has_id i (table ++ (r ∷ [])) ≡ is_seen i (r.trade_id ∷ seen)
  unfolding has_id is_seen
  seen_too r seen table h i =
      rw (has_id-append i table (r ∷ []), h i) (swap (is_seen i seen) (bytes_eq r.trade_id i))
    where
      swap : (a b : Bool) → (a || (b || false)) ≡ (b || a)
      swap a b = ground arith

  insert_all-seen :
      (seen : List Text) (rows table : List (TradeRecord P))
      → ((i : Text) → has_id i table ≡ is_seen i seen)
      → insert_all rows table ≡ table ++ new_rows seen rows
  unfolding insert_all insert_or_ignore new_rows
  insert_all-seen seen [] table h = sym (append-nil table)
  insert_all-seen seen (r ∷ rows) table h = elim (Bool-cases (is_seen r.trade_id seen)) [
    | inl e ↦ rw (h r.trade_id, e) (insert_all-seen seen rows table h)
    | inr e ↦
        rw (h r.trade_id, e)
          (insert_all-seen (r.trade_id ∷ seen) rows (table ++ (r ∷ [])) (seen_too r seen table h)
            ∙ append_assoc table (r ∷ []) (new_rows (r.trade_id ∷ seen) rows))
  ]

  pub insert_all-new_rows :
      (rows table : List (TradeRecord P))
      → insert_all rows table ≡ table ++ new_rows (trade_ids table) rows
  insert_all-new_rows rows table =
      insert_all-seen (trade_ids table) rows table (λ i. has_id-is_seen i table)

  insert_or_ignore_keeps :
      (r : TradeRecord P) (i : Text) (table : List (TradeRecord P))
      → has_id i table ≡ true
      → has_id i (insert_or_ignore r table) ≡ true
  unfolding insert_or_ignore
  insert_or_ignore_keeps r i table h = elim (Bool-cases (has_id r.trade_id table)) [
    | inl e ↦ rw e h
    | inr e ↦ rw e (has_id-append i table (r ∷ []) ∙ ap (λ b. b || has_id i (r ∷ [])) h)
  ]

  insert_or_ignore-Has :
      (r : TradeRecord P) (table : List (TradeRecord P)) → Has (insert_or_ignore r table) r
  unfolding insert_or_ignore has_id
  insert_or_ignore-Has r table = elim (Bool-cases (has_id r.trade_id table)) [
    | inl e ↦ rw e e
    | inr e ↦ rw (e, has_id-append r.trade_id table (r ∷ []), bytes_eq_refl r.trade_id, e) refl
  ]

  insert_all_keeps :
      (rows : List (TradeRecord P)) (i : Text) (table : List (TradeRecord P))
      → has_id i table ≡ true
      → has_id i (insert_all rows table) ≡ true
  unfolding insert_all
  insert_all_keeps [] i table h = h
  insert_all_keeps (r ∷ rows) i table h =
      insert_all_keeps rows i (insert_or_ignore r table) (insert_or_ignore_keeps r i table h)

  pub insert_all-Has : (rows table : List (TradeRecord P)) → All (Has (insert_all rows table)) rows
  unfolding insert_all
  insert_all-Has [] table = tt
  insert_all-Has (r ∷ rows) table = (
    insert_all_keeps rows r.trade_id (insert_or_ignore r table) (insert_or_ignore-Has r table),
    insert_all-Has rows (insert_or_ignore r table),
  )

  append_one-OnePerId :
      (r : TradeRecord P) (table : List (TradeRecord P))
      → has_id r.trade_id table ≡ false
      → OnePerId table
      → OnePerId (table ++ (r ∷ []))
  unfolding has_id
  append_one-OnePerId r [] h k = (refl, tt)
  append_one-OnePerId r (x ∷ table) h k = (
    rw
        (
          has_id-append x.trade_id table (r ∷ []),
          k.0,
          other_way x.trade_id r.trade_id (ground (arith, h)),
        )
        refl,
    append_one-OnePerId r table (ground (arith, h)) k.1,
  )

  pub insert_all-OnePerId :
      (rows table : List (TradeRecord P)) → OnePerId table → OnePerId (insert_all rows table)
  unfolding insert_all insert_or_ignore
  insert_all-OnePerId [] table h = h
  insert_all-OnePerId (r ∷ rows) table h = elim (Bool-cases (has_id r.trade_id table)) [
    | inl e ↦ rw e (insert_all-OnePerId rows table h)
    | inr e ↦ rw e (insert_all-OnePerId rows (table ++ (r ∷ [])) (append_one-OnePerId r table e h))
  ]

  pub insert_all_again :
      (rows table : List (TradeRecord P)) → All (Has table) rows → insert_all rows table ≡ table
  unfolding insert_all insert_or_ignore
  insert_all_again [] table h = refl
  insert_all_again (r ∷ rows) table h = rw (h.0) (insert_all_again rows table h.1)

  pub insert_all-append :
      (a b table : List (TradeRecord P))
      → insert_all (a ++ b) table ≡ insert_all b (insert_all a table)
  unfolding insert_all
  insert_all-append [] b table = refl
  insert_all-append (r ∷ a) b table = insert_all-append a b (insert_or_ignore r table)

  pub length-insert_all :
      (rows table : List (TradeRecord P))
      → (length table ≤ length (insert_all rows table))
        × (length (insert_all rows table) ≤ length table + length rows)
  unfolding insert_all insert_or_ignore
  length-insert_all [] table = (omega arith, omega arith)
  length-insert_all (r ∷ rows) table = elim (Bool-cases (has_id r.trade_id table)) [
    | inl e ↦
        rw e (let (a, b) = length-insert_all rows table in (omega (arith, a), omega (arith, b)))
    | inr e ↦ rw e (
        let (a, b) = length-insert_all rows (table ++ (r ∷ [])) in
        (
          omega (arith, a, length-append table (r ∷ [])),
          omega (arith, b, length-append table (r ∷ [])),
        ))
  ]

  -- The rows that were there stay, in their places.
  pub insert_all-appends :
      (rows table : List (TradeRecord P))
      → (added : List (TradeRecord P)) × (insert_all rows table ≡ table ++ added)
  unfolding insert_all insert_or_ignore
  insert_all-appends [] table = ([], sym (append-nil table))
  insert_all-appends (r ∷ rows) table = elim (Bool-cases (has_id r.trade_id table)) [
    | inl e ↦ rw e (insert_all-appends rows table)
    | inr e ↦ rw e (
        let (added, h) = insert_all-appends rows (table ++ (r ∷ [])) in
        (r ∷ added, h ∙ append_assoc table (r ∷ []) added))
  ]

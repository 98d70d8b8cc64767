-- ===== src/Monitor/State/Pinned.antt =====
-- The selection of whale events to display (src/monitor/latency_monitor.py): the newest, with the
-- latest sweep.
use infotact_python_project.Prelude.{
  ℕ, zero, suc, ◌-◌, ◌≤◌, ◌≡◌, Bool, true, false, ltb, ◌==◌, some, List, [], ◌∷◌, ◌++◌, length,
  drop, length-drop, All, All-map, All-append, refl, ap, sym, subst, append_assoc, ltb→lt, ◌∙◌, inl,
  inr, Bool-cases, arith,
}
use infotact_python_project.Float.{PriceOrder, FloatOps}
use infotact_python_project.Monitor.{Monitor, WhaleEvent}
use infotact_python_project.Monitor.Views.{last_n}
use infotact_python_project.Monitor.State.{
  is_sweep_event, first_sweep, get_market_state, is_among, pin_sweep, select_whale_events,
}
use mathlib.Core.List.{reverse, reverse-append, reverse-cons}

-- The entry is one of the list.
pub data Among {ℓ} {A : Type ℓ} (x : A) : List A → Type ℓ where
  here : {y : A} {ys : List A} → x ≡ y → Among x (y ∷ ys)
  there : {y : A} {ys : List A} → Among x ys → Among x (y ∷ ys)

module _ {ℓ} {A : Type ℓ} where
  All-drop {κ} : (Q : A → Type κ) (n : ℕ) (xs : List A) → All Q xs → All Q (drop n xs)
  All-drop Q zero xs h = h
  All-drop Q (suc n) [] h = h
  All-drop Q (suc n) (x ∷ xs) h = All-drop Q n xs h.1

  All-Among : (xs : List A) → All (λ x. Among x xs) xs
  All-Among [] = tt
  All-Among (x ∷ xs) = (Among.here refl, All-map _ _ xs (λ y h. Among.there h) (All-Among xs))

  All-reverse {κ} : (Q : A → Type κ) (xs : List A) → All Q xs → All Q (reverse xs)
  All-reverse Q [] h = tt
  All-reverse Q (x ∷ xs) h =
      rw (reverse-cons x xs) (All-append Q (reverse xs) (x ∷ []) (All-reverse Q xs h.1) (h.0, tt))

  last_n-All {κ} : (Q : A → Type κ) (n : ℕ) (xs : List A) → All Q xs → All Q (last_n n xs)
  unfolding last_n
  last_n-All Q n xs h = elim (Bool-cases (n == 0)) [
    | inl e ↦ rw e h
    | inr e ↦ rw e (All-drop Q (length xs - n) xs h)
  ]

  length-last_n : (n : ℕ) (xs : List A) → 1 ≤ n → length (last_n n xs) ≤ n
  unfolding last_n
  length-last_n n xs h = ground (arith, length-drop (length xs - n) xs)

  Among-append : (x : A) (xs ys : List A) → Among x (xs ++ (x ∷ ys))
  Among-append x [] ys = Among.here refl
  Among-append x (y ∷ xs) ys = Among.there (Among-append x xs ys)

module _ {ℓ} {P : Type ℓ} where
  abbrev pub NoSweep : WhaleEvent P → Type 0
  NoSweep w = is_sweep_event w.event_type ≡ false

  first_sweep-append :
      (s : WhaleEvent P) (xs ys : List (WhaleEvent P))
      → All NoSweep xs
      → is_sweep_event s.event_type ≡ true
      → first_sweep (xs ++ (s ∷ ys)) ≡ some s
  unfolding first_sweep
  first_sweep-append s [] ys h k = rw k refl
  first_sweep-append s (x ∷ xs) ys h k = rw h.0 (first_sweep-append s xs ys h.1 k)

  -- The last sweep of the list is the first of its reverse.
  first_sweep-reverse :
      (s : WhaleEvent P) (before after : List (WhaleEvent P))
      → All NoSweep after
      → is_sweep_event s.event_type ≡ true
      → first_sweep (reverse (before ++ (s ∷ after))) ≡ some s
  first_sweep-reverse s before after h k =
      rw
        (
          reverse-append before (s ∷ after),
          reverse-cons s after,
          append_assoc (reverse after) (s ∷ []) (reverse before),
        )
        (first_sweep-append s (reverse after) (reverse before) (All-reverse NoSweep after h) k)

  module _ (same : WhaleEvent P → WhaleEvent P → Bool)
      (identical : (a b : WhaleEvent P) → same a b ≡ true → a ≡ b) where
    is_among-Among :
        (s : WhaleEvent P) (shown : List (WhaleEvent P))
        → is_among same s shown ≡ true
        → Among s shown
    unfolding is_among
    is_among-Among s [] h = absurd (cc)
    is_among-Among s (w ∷ shown) h = elim (Bool-cases (same s w)) [
      | inl e ↦ Among.here (identical s w e)
      | inr e ↦ Among.there (is_among-Among s shown (ground arith))
    ]

    pin_sweep_lem :
        (s : WhaleEvent P) (n : ℕ) (recent : List (WhaleEvent P)) (Q : WhaleEvent P → Type ℓ)
        → 1 ≤ n
        → Q s
        → All Q recent
        → let shown = pin_sweep same (some s) n recent (last_n n recent) in
          Among s shown × (length shown ≤ n) × All Q shown
    unfolding pin_sweep
    pin_sweep_lem s n recent Q some_room q h =
        elim (Bool-cases (is_among same s (last_n n recent))) [
          | inl e ↦
              rw e (is_among-Among s _ e, length-last_n n recent some_room, last_n-All Q n recent h)
          | inr e ↦ rw e (elim (Bool-cases (ltb 1 n)) [
            | inl more ↦ rw more (
              Among.here refl,
              omega (arith, length-last_n (n - 1) recent (ground arith), ltb→lt 1 n more),
              (q, last_n-All Q (n - 1) recent h),
            )
            | inr one ↦ rw one (Among.here refl, omega arith, (q, tt))
          ])
        ]

    -- If there is a sweep among the whale events that the monitor keeps, then the latest is among
    -- those displayed, which are at most as many as asked for, and all of them kept events. At
    -- least one is asked for; identical objects are equal.
    pub latest_sweep_shown {κ} :
        {G : Type κ} ⦃o : PriceOrder P⦄ (f : FloatOps P) (m : Monitor P G)
        (now_ns n rate_target : ℕ) (is_paused : Bool) (before : List (WhaleEvent P))
        (s : WhaleEvent P) (after : List (WhaleEvent P))
        → 1 ≤ n
        → m.whale_events ≡ before ++ (s ∷ after)
        → is_sweep_event s.event_type ≡ true
        → All NoSweep after
        → let shown =
            select_whale_events same (get_market_state f now_ns is_paused rate_target m) n in
          Among s shown × (length shown ≤ n) × All (λ w. Among w m.whale_events) shown
    unfolding select_whale_events get_market_state
    latest_sweep_shown f m now_ns n rate_target is_paused before s after some_room e sweep latest =
        let positive : (n == 0) ≡ false = ground arith in
        let found : first_sweep (reverse m.whale_events) ≡ some s =
          ap (λ l. first_sweep (reverse l)) e ∙ first_sweep-reverse s before after latest sweep in
        rw (positive, found)
          (pin_sweep_lem s n (last_n 6 m.whale_events) (λ w. Among w m.whale_events) some_room
            (subst (Among s) (sym e) (Among-append s before after))
            (last_n-All _ 6 m.whale_events (All-Among m.whale_events)))

-- ===== src/Window.antt =====
-- Indices that go round: the entries of a circular buffer from one index on, oldest first.
use native.Mathlib.Nat.{mod-eq_of_lt, mod-eq-sub-mod, mod-add-mod, mod-lt}
use native.Mathlib.Decide.{dec_lt}
use infotact_python_project.Prelude.{
  ℕ, zero, suc, ◌+◌, ◌-◌, ◌%◌, ◌<◌, List, [], ◌∷◌, ◌++◌, ◌≡◌, ◌≢◌, refl, sym, ap, ap₂, ◌∙◌, length,
  arith,
}

module _ {ℓ} {A : Type ℓ} where
  -- The `n` entries from index `h` on.
  unfoldable pub window : (ℕ → A) → ℕ → ℕ → ℕ → List A
  window f slots h zero = []
  window f slots h (suc n) = f h ∷ window f slots ((h + 1) % slots) n

  pub length-window : (f : ℕ → A) (slots h n : ℕ) → length (window f slots h n) ≡ n
  unfolding window
  length-window f slots h zero = refl
  length-window f slots h (suc n) = ap suc (length-window f slots ((h + 1) % slots) n)

  pub window_agree :
      (f g : ℕ → A) (slots h n : ℕ)
      → ((i : ℕ) → g i ≡ f i)
      → window g slots h n ≡ window f slots h n
  unfolding window
  window_agree f g slots h zero e = refl
  window_agree f g slots h (suc n) e = ap₂ ◌∷◌ (e h) (window_agree f g slots ((h + 1) % slots) n e)

-- The index `k` places after `h`.
pub step-mod : (slots h k : ℕ) → ((h + 1) % slots + k) % slots ≡ (h + suc k) % slots
step-mod slots h k = mod-add-mod (h + 1) slots k ∙ ap (λ j. j % slots) (omega arith)

-- Fewer than `slots` steps do not come back to the start.
pub step_away : (slots h k : ℕ) → h < slots → suc k < slots → (h + suc k) % slots ≢ h
step_away slots h k a b = elim (dec_lt (h + suc k) slots) [
  | yes p ↦ omega (arith, mod-eq_of_lt p)
  | no p ↦ omega (
    arith,
    mod-eq-sub-mod {n = h + suc k} {m = slots} (omega arith),
    mod-eq_of_lt {n = h + suc k - slots} {m = slots} (omega arith),
  )
]

module _ {ℓ} {A : Type ℓ} (f g : ℕ → A) (slots t : ℕ) (x : A) where
  -- A write at the index behind the window, and nowhere else, extends it by the entry.
  pub window_extend :
      (n h : ℕ)
      → t ≡ (h + n) % slots
      → h < slots
      → n < slots
      → g t ≡ x
      → ((i : ℕ) → t ≢ i → g i ≡ f i)
      → window g slots h (suc n) ≡ window f slots h n ++ (x ∷ [])
  unfolding window
  window_extend zero h e a b new old = ap (λ y. y ∷ []) (ap g (sym here) ∙ new)
    where
      here : t ≡ h
      here = e ∙ ap (λ j. j % slots) (omega arith) ∙ mod-eq_of_lt a
  window_extend (suc n) h e a b new old =
      ap₂ ◌∷◌ (old h (λ k. step_away slots h n a b (omega arith))) (
        window_extend n ((h + 1) % slots) (e ∙ sym (step-mod slots h n))
          (mod-lt (h + 1) (omega arith)) (omega arith) new old)

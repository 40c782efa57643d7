-- ===== src/Scaling/Windows.antt =====
-- The windows of a plan cover the peak, and nothing more.
use ticket_booking.Base.{
  ℕ, suc, ◌*◌, ◌/◌, ◌≤◌, ◌≡◌, refl, sym, ◌∙◌, ap, max, inl, inr, List, [], ◌∷◌, map, All, length,
  ◌==◌, ==_iff, arith, Bool-cases,
}
use ticket_booking.Scaling.Calculator.{
  ResourceCalculator, ScalingWindow, smooth_after, smooth_scale_down, window, merge_from,
  merge_steps, zip, merge_windows,
}

-- `max(…)` of numbers, 0 of none.
abbrev pub peak : List ℕ → ℕ
peak [] = 0
peak (x ∷ xs) = max x (peak xs)

abbrev pub recommended : List ScalingWindow → List ℕ
recommended = map (λ w. w.recommended_replicas)

length-smooth_after : (p : ℕ) (rs : List ℕ) → length (smooth_after p rs) ≡ length rs
unfolding smooth_after
length-smooth_after p [] = refl
length-smooth_after p (r ∷ rs) = ap suc (length-smooth_after (max r (max 1 (p * 4 / 5))) rs)

peak-smooth_after :
    (p : ℕ) (rs : List ℕ) → 1 ≤ p → max p (peak (smooth_after p rs)) ≡ max p (peak rs)
unfolding smooth_after
peak-smooth_after p [] h = refl
peak-smooth_after p (r ∷ rs) h =
    let rest = peak-smooth_after (max r (max 1 (p * 4 / 5))) rs (omega arith) in omega (arith, rest)

module _ (c : ResourceCalculator) where
  abbrev pub numbers : List (ℕ × ℕ) → List ℕ
  numbers [] = []
  numbers ((t, r) ∷ steps) = r ∷ numbers steps

  merge_from-peak :
      (s r b : ℕ) (steps : List (ℕ × ℕ))
      → peak (recommended (merge_from c s r b steps)) ≡ max r (peak (numbers steps))
  unfolding merge_from window
  merge_from-peak s r b [] = refl
  merge_from-peak s r b ((t, x) ∷ steps) = elim (Bool-cases (x == r)) [
    | inl e ↦ rw (e, merge_from) (omega (arith, merge_from-peak s r t steps, (==_iff x r).0 e))
    | inr e ↦ rw (e, merge_from) (omega (arith, merge_from-peak t x t steps))
  ]

  merge_steps-peak :
      (steps : List (ℕ × ℕ)) → peak (recommended (merge_steps c steps)) ≡ peak (numbers steps)
  unfolding merge_steps
  merge_steps-peak [] = refl
  merge_steps-peak ((t, r) ∷ steps) = merge_from-peak t r t steps

  numbers-zip : (ts rs : List ℕ) → length ts ≡ length rs → numbers (zip c ts rs) ≡ rs
  numbers-zip [] [] h = refl
  numbers-zip [] (r ∷ rs) h = absurd (omega arith)
  numbers-zip (t ∷ ts) [] h = absurd (omega arith)
  numbers-zip (t ∷ ts) (r ∷ rs) h = ap (λ xs. r ∷ xs) (numbers-zip ts rs (omega arith))

  -- For as many times as numbers of pods, each at least one, the largest number among the
  -- windows is the largest that was asked for: smoothing and merging lose no peak and make
  -- none.
  pub merge_windows-peak :
      (times replicas : List ℕ)
      → length times ≡ length replicas
      → All (λ r. 1 ≤ r) replicas
      → peak (recommended (merge_windows c times replicas)) ≡ peak replicas
  unfolding merge_windows smooth_scale_down merge_steps
  merge_windows-peak [] [] h a = refl
  merge_windows-peak (t ∷ times) [] h a = absurd (omega arith)
  merge_windows-peak times (r ∷ rs) h a =
      merge_steps-peak (zip c times (r ∷ smooth_after r rs))
      ∙ ap peak
          (numbers-zip times (r ∷ smooth_after r rs) (h ∙ ap suc (sym (length-smooth_after r rs))))
      ∙ peak-smooth_after r rs a.0

-- ===== src/Performance/Within.antt =====
-- Bounds of the estimates of backend/app/services/performance.py.
use mathlib.Core.Option.{some-injective}
use ai_repo.Prelude.{
  ℕ, ◌≤◌, ◌≡◌, refl, ◌↔◌, inl, inr, Option, Bool, true, List, [], ◌∷◌, arith, filter, length,
  Bool-cases, All, none, some, IfSome,
}
use ai_repo.Runtime.{Builtins, IsOrdered, IsRounding, zero_float, max_of, min_of}
use ai_repo.Domain.{ComponentNode, Group, number}
use ai_repo.Solver.Parts.{BuildPreferences}
use ai_repo.Performance.{
  Numpy, Confidence, PerformanceResponse, of_nat, is_known, confidence_inputs, confidence_of,
  rendered_fps, shortfall_percent, calculate,
}

length-filter : {F : Type 0} (p : F → Bool) (xs : List F) → length (filter p xs) ≤ length xs
length-filter p [] = omega arith
length-filter p (x ∷ xs) = ground (arith, length-filter p xs)

module _ {F : Type 0} ⦃py : Builtins F⦄ where
  known-length :
      (xs : List (Option F))
      → (length (filter is_known xs) ≡ length xs) ↔ All (λ o. is_known o ≡ true) xs
  known-length [] = (λ _. tt, λ _. refl)
  known-length (o ∷ xs) = elim (Bool-cases (is_known o)) [
    | inl e ↦ rw e (
      λ h. (refl, (known-length xs).0 (omega arith)),
      λ h. let same = (known-length xs).1 h.1 in omega arith,
    )
    | inr e ↦ rw e (λ h. let less = length-filter is_known xs in absurd (omega arith), λ h. cc)
  ]

  confidence_of-eq-high_iff :
      (inputs : List (Option F))
      → (confidence_of inputs ≡ Confidence.high) ↔ All (λ o. is_known o ≡ true) inputs
  unfolding confidence_of
  confidence_of-eq-high_iff inputs = ground (arith, known-length inputs)

  -- A number is given and greater than 0.
  abbrev pub IsPositive : Option F → Type 0
  IsPositive o = (x : F) × (o ≡ some x) × (py.lt zero_float x ≡ true)

  known-IsPositive : (o : Option F) → (is_known o ≡ true) ↔ IsPositive o
  known-IsPositive none = (λ h. cc, λ h. cc)
  known-IsPositive (some x) = (λ h. (x, refl, h), λ h. rw (some-injective _ _ h.1) h.2)

  inputs-IsPositive :
      (cpu gpu : ComponentNode F) (ram : Option (ComponentNode F))
      → (confidence_of (confidence_inputs cpu gpu ram) ≡ Confidence.high) ↔ (
          IsPositive (number cpu Group.specs "single_thread_score" none)
          × IsPositive (number cpu Group.specs "multi_thread_score" none)
          × IsPositive (number gpu Group.specs "raster_score" none)
          × IsPositive (number gpu Group.specs "compute_score" none)
          × IfSome ram (λ r. IsPositive (number r Group.bandwidth "memory_gbps" none)))
  unfolding confidence_inputs
  inputs-IsPositive cpu gpu none =
      let high = confidence_of-eq-high_iff (confidence_inputs cpu gpu none) in
      let known = known-IsPositive in
      (
        λ h.
            let (a, (b, (c, (d, _)))) = high.0 h in
            ((known _).0 a, (known _).0 b, (known _).0 c, (known _).0 d, tt),
        λ (a, b, c, d, _).
            high.1 ((known _).1 a, ((known _).1 b, ((known _).1 c, ((known _).1 d, tt)))),
      )
  inputs-IsPositive cpu gpu (some r) =
      let high = confidence_of-eq-high_iff (confidence_inputs cpu gpu (some r)) in
      let known = known-IsPositive in
      (
        λ h.
            let (a, (b, (c, (d, (e, _))))) = high.0 h in
            ((known _).0 a, (known _).0 b, (known _).0 c, (known _).0 d, (known _).0 e),
        λ (a, b, c, d, e).
            high.1 (
              (known _).1 a,
              ((known _).1 b, ((known _).1 c, ((known _).1 d, ((known _).1 e, tt)))),
            ),
      )

  module _ (ordered : IsOrdered F) where
    open ordered use {le_of_lt, lt-eq-false_iff}

    max_of-left : (a x : F) → py.le a a ≡ true → py.le a (max_of a x) ≡ true
    max_of-left a x n = elim (Bool-cases (py.lt a x)) [
      | inl e ↦ rw e (le_of_lt a x e)
      | inr e ↦ rw e n
    ]

    min_of-right : (a b : F) → py.le a a ≡ true → py.le b b ≡ true → py.le (min_of a b) b ≡ true
    min_of-right a b n m = elim (Bool-cases (py.lt b a)) [
      | inl e ↦ rw e m
      | inr e ↦ rw e ((lt-eq-false_iff b a m n).0 e)
    ]

-- The estimates that the answer promises to keep in bounds.
pub record IsWithin {F : Type 0} ⦃py : Builtins F⦄ (response : PerformanceResponse F) (refresh : F)
    : Type 0 where
  pub fps : py.le response.expected_fps (py.round refresh 1) ≡ true
  pub one_percent_low : py.le (py.round (py.literal 1 0) 1) response.one_percent_low_fps ≡ true
  pub cpu : py.le (py.round zero_float 1) response.bottleneck.cpu_percent ≡ true
  pub gpu : py.le (py.round zero_float 1) response.bottleneck.gpu_percent ≡ true
  pub memory : py.le (py.round zero_float 1) response.bottleneck.memory_percent ≡ true
  pub display : py.le (py.round zero_float 1) response.bottleneck.display_percent ≡ true

module _ {F : Type 0} ⦃py : Builtins F⦄ (np : Numpy F) (cpu gpu : ComponentNode F)
    (ram : Option (ComponentNode F)) (preferences : BuildPreferences F)
    (display_refresh_hz : ℕ) where
  -- With ordered numbers, literals that are numbers, monotone rounding, and a frame rate and a refresh
  -- rate that are numbers: the estimated frame rate is at most the display's, the one-percent low is at
  -- least 1, and no bottleneck percentage is negative, all up to the rounding to one decimal.
  pub calculate-IsWithin :
      (ordered : IsOrdered F) (rounding : IsRounding F)
      → py.le (rendered_fps np cpu gpu ram preferences) (rendered_fps np cpu gpu ram preferences)
        ≡ true
      → py.le (of_nat display_refresh_hz) (of_nat display_refresh_hz) ≡ true
      → IsWithin
          (calculate np cpu gpu ram preferences display_refresh_hz)
          (of_nat display_refresh_hz)
  unfolding calculate shortfall_percent
  calculate-IsWithin ordered rounding n m = record {
    fps = rounding.round_monotone _ _ 1 (min_of-right ordered _ _ n m);
    one_percent_low =
        rounding.round_monotone _ _ 1 (max_of-left ordered _ _ (rounding.literal_le_self 1 0));
    cpu = rounding.round_monotone _ _ 1 (max_of-left ordered _ _ (rounding.literal_le_self 0 0));
    gpu = rounding.round_monotone _ _ 1 (max_of-left ordered _ _ (rounding.literal_le_self 0 0));
    memory = rounding.round_monotone _ _ 1 (max_of-left ordered _ _ (rounding.literal_le_self 0 0));
    display =
        rounding.round_monotone _ _ 1 (max_of-left ordered _ _ (rounding.literal_le_self 0 0));
  }

  -- The confidence is high exactly when both scores of the CPU and both of the GPU are known and
  -- greater than 0, and, with a memory, its bandwidth is too.
  pub calculate-high_iff :
      ((calculate np cpu gpu ram preferences display_refresh_hz).confidence ≡ Confidence.high) ↔ (
        IsPositive (number cpu Group.specs "single_thread_score" none)
        × IsPositive (number cpu Group.specs "multi_thread_score" none)
        × IsPositive (number gpu Group.specs "raster_score" none)
        × IsPositive (number gpu Group.specs "compute_score" none)
        × IfSome ram (λ r. IsPositive (number r Group.bandwidth "memory_gbps" none)))
  unfolding calculate
  calculate-high_iff = inputs-IsPositive cpu gpu ram

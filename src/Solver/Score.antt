-- ===== src/Solver/Score.antt =====
-- `_evaluate` of backend/app/services/build_solver.py and the scores that it adds up, and the order
-- in which `_load_catalog` hands the candidates to the search.
pub mod Checked
use ai_repo.Prelude.{
  ℕ, String, Option, none, some, Bool, true, false, ◌&&◌, List, [], ◌∷◌, map, somes, if◌then◌else◌,
  get_or, elem, leb, ◌==◌, pos, Raises,
}
use ai_repo.Runtime.{Builtins, zero_float, or_zero, max_of, sum_from}
use ai_repo.Text.{contains, non_empty}
use ai_repo.Domain.{
  ComponentKind, ComponentNode, Group, number, property, property_or_empty, value_truthy, str,
  first_known_number, psu_wattage_fields,
}
use ai_repo.Performance.{
  Numpy, PerformanceResponse, BottleneckBreakdown, calculate, or_other, of_nat,
}
use ai_repo.Solver.Parts.{
  BuildPreferences, NoisePreference, CandidateBuild, Parts, part, selection_of, cost,
}
use ai_repo.Solver.Select.{sorted_desc}
use ai_repo.Repository.{Repository}

module _ {F : Type 0} ⦃py : Builtins F⦄ where
  -- `_noise_penalty` after the lookups
  unfoldable pub noise_penalty_of : NoisePreference → Option F → F
  noise_penalty_of NoisePreference.performance noise = zero_float
  noise_penalty_of NoisePreference.quiet none = py.literal 35 2
  noise_penalty_of NoisePreference.balanced none = py.literal 8 2
  noise_penalty_of NoisePreference.quiet (some noise) =
      max_of zero_float (py.div (py.sub noise (py.literal 28 0)) (py.literal 12 0))
  noise_penalty_of NoisePreference.balanced (some noise) =
      max_of zero_float (py.div (py.sub noise (py.literal 36 0)) (py.literal 18 0))

  -- `_noise_penalty`
  unfoldable pub noise_penalty : ComponentNode F → BuildPreferences F → F
  unfolding noise_penalty_of
  noise_penalty node preferences = noise_penalty_of preferences.noise_preference (
      or_other (number node Group.specs "noise_level_db" none)
        (number node Group.raw "noise_level_db" none))

  -- `_build_noise_penalty`
  unfoldable pub build_noise_penalty : Parts F → BuildPreferences F → F
  unfolding noise_penalty
  build_noise_penalty parts preferences =
      let both = somes (part ComponentKind.cooler parts ∷ part ComponentKind.case parts ∷ []) in
      let penalty =
        sum_from zero_float (map (λ (n : ComponentNode F). noise_penalty n preferences) both) in
      elim preferences.noise_preference [
        | NoisePreference.quiet ↦ py.mul penalty (py.literal 28 0)
        | NoisePreference.balanced ↦ py.mul penalty (py.literal 8 0)
        | NoisePreference.performance ↦ zero_float
      ]

  -- `_psu_efficiency_bonus`, of the text `str(… or "").upper()`
  unfoldable pub efficiency_bonus : String → F
  efficiency_bonus efficiency =
      if contains "TITANIUM" efficiency
      then py.literal 180 0
      else if contains "PLATINUM" efficiency
      then py.literal 140 0
      else if contains "GOLD" efficiency
      then py.literal 100 0
      else if contains "BRONZE" efficiency
      then py.literal 35 0
      else py.sub zero_float (py.literal 45 0)

  -- `_psu_efficiency_bonus`
  unfoldable pub psu_efficiency_bonus : ComponentNode F → F
  unfolding efficiency_bonus
  psu_efficiency_bonus node =
      let rating = property node Group.specs "efficiency_rating" in
      efficiency_bonus (py.upper (if value_truthy rating then str rating else ""))

  abbrev pub on_am5 : Option (ComponentNode F) → Bool
  on_am5 none = false
  on_am5 (some board) = py.upper (str (property_or_empty board Group.specs "socket")) == "AM5"

  -- `(self._first_known_number(psu, PSU_WATTAGE_FIELDS) or 0) >= 750`
  abbrev pub has_headroom : Option (ComponentNode F) → Bool
  has_headroom none = false
  has_headroom (some psu) =
      py.le (py.literal 750 0) (or_zero (first_known_number psu psu_wattage_fields))

  -- `(ram.number("specs", "speed_mt_s", 0) or 0) >= 5600`
  abbrev pub has_fast_memory : Option (ComponentNode F) → Bool
  has_fast_memory none = false
  has_fast_memory (some ram) =
      py.le (py.literal 5600 0) (or_zero (number ram Group.specs "speed_mt_s" (some zero_float)))

  abbrev add_if : Bool → ℕ → F → F
  add_if b n score = if b then py.add score (py.literal n 0) else score

  -- `_build_longevity_score`
  unfoldable pub build_longevity_score : Parts F → BuildPreferences F → F
  build_longevity_score parts preferences =
      if leb preferences.upgrade_path_priority 0
      then zero_float
      else py.mul
          (add_if (has_fast_memory (part ComponentKind.ram parts)) 6 (
            add_if (has_headroom (part ComponentKind.psu parts)) 10
              (add_if (on_am5 (part ComponentKind.motherboard parts)) 14 zero_float)))
          (py.div (of_nat preferences.upgrade_path_priority) (py.literal 10 0))

  -- The first part of `_candidate_priority`: the raw merit by kind.
  unfoldable pub raw_priority : ComponentKind → ComponentNode F → BuildPreferences F → F
  unfolding noise_penalty psu_efficiency_bonus
  raw_priority ComponentKind.cpu node preferences =
      py.add
        (py.mul (or_zero (number node Group.specs "single_thread_score" (some zero_float)))
          (py.literal 42 2))
        (py.mul (or_zero (number node Group.specs "multi_thread_score" (some zero_float)))
          (py.literal 15 3))
  raw_priority ComponentKind.gpu node preferences =
      py.add
        (py.mul (or_zero (number node Group.specs "raster_score" (some zero_float)))
          (py.literal 6 2))
        (py.mul (or_zero (number node Group.specs "compute_score" (some zero_float)))
          (py.literal 25 1))
  raw_priority ComponentKind.ram node preferences =
      py.mul (or_zero (number node Group.bandwidth "memory_gbps" (some zero_float)))
        (py.literal 20 0)
  raw_priority ComponentKind.psu node preferences =
      py.add (or_zero (number node Group.specs "continuous_wattage" (some zero_float)))
        (psu_efficiency_bonus node)
  raw_priority ComponentKind.cooler node preferences =
      py.sub
        (py.mul (or_zero (number node Group.specs "cooling_capacity_w" (some zero_float)))
          (py.literal 2 0))
        (py.mul (noise_penalty node preferences) (py.literal 40 0))
  raw_priority ComponentKind.case node preferences =
      let base = py.literal 500 0 in
      let sized : F = elim preferences.size [
        | none ↦ base
        | some size ↦
            if contains size (str (property_or_empty node Group.specs "supported_form_factors"))
            then py.add base (py.literal 1000 0)
            else py.add base (py.sub zero_float (py.literal 1000 0))
      ] in
      py.sub sized (py.mul (noise_penalty node preferences) (py.literal 35 0))
  raw_priority kind node preferences = py.literal 500 0

  -- `node.brand and node.brand in preferences.brand_bias`
  abbrev pub is_favoured : ComponentNode F → BuildPreferences F → Bool
  is_favoured node preferences = elim node.brand [
    | none ↦ false
    | some brand ↦ non_empty brand && elem brand preferences.brand_bias
  ]

  -- `_candidate_priority`
  unfoldable pub candidate_priority : ComponentKind → ComponentNode F → BuildPreferences F → F
  unfolding raw_priority
  candidate_priority kind node preferences =
      let price = get_or node.price_usd zero_float in
      let intelligence =
        py.div (or_zero (number node Group.raw "intelligence_value_score" (some zero_float)))
          (py.literal 1000 0) in
      py.add
        (py.add (py.div (raw_priority kind node preferences) (max_of price (py.literal 50 0)))
          (if is_favoured node preferences then py.literal 8 2 else zero_float))
        intelligence

  -- `_load_catalog`: what the graph returns for a kind, the highest priority first
  unfoldable pub load_catalog :
      Repository F → ℕ → BuildPreferences F → ComponentKind → List (ComponentNode F)
  unfolding candidate_priority
  load_catalog repository limit preferences kind =
      sorted_desc (λ (n : ComponentNode F). candidate_priority kind n preferences)
        (repository.components_by_kind kind limit)

  -- The scores of `_evaluate` from the estimates and the cost.
  unfoldable pub scored :
      Parts F → BuildPreferences F → (budget : F) → PerformanceResponse F → CandidateBuild F
  unfolding build_noise_penalty build_longevity_score
  scored parts preferences budget estimate =
      let total = cost parts in
      let one = py.literal 1 0 in
      let perf =
        py.add (py.mul estimate.expected_fps (py.literal 32 1)) estimate.one_percent_low_fps in
      let over = max_of zero_float (py.sub total budget) in
      let under = py.div (max_of zero_float (py.sub budget total)) (max_of budget one) in
      let bottleneck =
        py.mul
          (py.add (py.add estimate.bottleneck.cpu_percent estimate.bottleneck.gpu_percent)
            (py.mul estimate.bottleneck.memory_percent (py.literal 6 1)))
          (py.literal 28 1) in
      let noise = build_noise_penalty parts preferences in
      let longevity = py.mul (build_longevity_score parts preferences) (py.literal 9 1) in
      let cost_penalty =
        py.add (py.mul (py.div over (max_of budget one)) (py.literal 900 0))
          (py.mul (py.div total (max_of budget one)) (py.literal 24 0)) in
      let score = py.add (py.sub (py.sub (py.sub perf cost_penalty) bottleneck) noise) longevity in
      record {
        selection = selection_of parts;
        parts = parts;
        total_cost = total;
        score = score;
        performance_score = py.sub perf cost_penalty;
        value_score = py.mul (py.div perf (max_of total one)) (py.literal 1000 0);
        balanced_score =
            py.sub (py.add score (py.mul under (py.literal 50 0)))
              (py.mul bottleneck (py.literal 15 1));
        compatibility_failures = 0;
      }

  -- `_evaluate`: `parts[ComponentKind.CPU]` and `parts[ComponentKind.GPU]` raise where there is none.
  unfoldable pub evaluate :
      Numpy F → BuildPreferences F → (budget : F) → Parts F → Raises (CandidateBuild F)
  unfolding scored
  evaluate np preferences budget parts = elim (part ComponentKind.cpu parts) [
    | none ↦ none
    | some cpu ↦ elim (part ComponentKind.gpu parts) [
      | none ↦ none
      | some gpu ↦ some (
          scored parts preferences budget (
            calculate np cpu gpu (part ComponentKind.ram parts) preferences
              preferences.display_refresh_hz))
    ]
  ]

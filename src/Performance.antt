-- ===== src/Performance.antt =====
-- backend/app/services/performance.py: `PerformanceEngine`. The sentences `reasoning` and the echo of
-- rounded inputs `model_inputs`, which no code reads, are left out.
pub mod Within
use ai_repo.Prelude.{
  ℕ, ◌+◌, ◌-◌, String, Option, none, some, Bool, true, false, ◌&&◌, List, [], ◌∷◌, ◌++◌, map,
  filter, length, if◌then◌else◌, leb, eqb, ltb, ◌==◌, pos,
}
use ai_repo.Runtime.{Builtins, zero_float, truthy, or_zero, max_of, min_of}
use ai_repo.Domain.{ComponentNode, Group, number}
use ai_repo.Solver.Parts.{BuildPreferences, Purpose, Resolution}

-- The functions of numpy that the engine calls, on vectors of three.
pub record Vector (F : Type 0) : Type 0 where
  pub first : F
  pub second : F
  pub third : F

pub record Numpy (F : Type 0) : Type 0 where
  pub dot : Vector F → Vector F → F
  -- `divide`, entry by entry, at divisors that are not zero
  pub divide : Vector F → Vector F → Vector F
  -- `clip(x, lo, hi)`
  pub clip : F → F → F → F

pub data Confidence : Type 0 where
  high medium low : Confidence

pub record BottleneckBreakdown (F : Type 0) : Type 0 where
  pub cpu_percent : F
  pub gpu_percent : F
  pub memory_percent : F
  pub display_percent : F

pub record PerformanceResponse (F : Type 0) : Type 0 where
  pub expected_fps : F
  pub one_percent_low_fps : F
  pub frame_time_ms : F
  pub frame_time_variance_ms : F
  pub bottleneck : BottleneckBreakdown F
  pub confidence : Confidence

module _ {F : Type 0} ⦃py : Builtins F⦄ where
  -- `a or b` of two optional numbers
  abbrev pub or_other : Option F → Option F → Option F
  or_other none b = b
  or_other (some x) b = if truthy x then some x else b

  -- `float(display_refresh_hz)` and the like
  abbrev pub of_nat : ℕ → F
  of_nat n = py.of_int (pos n)

  abbrev pub purpose_weights : Purpose → Vector F
  purpose_weights Purpose.gaming = record {
    first = py.literal 42 2;
    second = py.literal 13 2;
    third = py.literal 45 2;
  }
  purpose_weights Purpose.simulation = record {
    first = py.literal 35 2;
    second = py.literal 45 2;
    third = py.literal 20 2;
  }
  purpose_weights Purpose.workstation = record {
    first = py.literal 28 2;
    second = py.literal 32 2;
    third = py.literal 40 2;
  }

  -- the rows of `BASELINE`
  abbrev pub cpu_baseline : Vector F
  cpu_baseline = record {
    first = py.literal 3000 0;
    second = py.literal 55000 0;
    third = py.literal 95 0;
  }

  abbrev pub gpu_baseline : Vector F
  gpu_baseline = record {
    first = py.literal 42000 0;
    second = py.literal 55 0;
    third = py.literal 760 0;
  }

  -- `RESOLUTION_PIXELS[resolution]`
  abbrev pub resolution_pixels : Resolution → F
  resolution_pixels Resolution.full_hd = of_nat 2073600
  resolution_pixels Resolution.quad_hd = of_nat 3686400
  resolution_pixels Resolution.ultra_hd = of_nat 8294400

  -- `number(group, key, 0.0) or 0.0`
  abbrev known_or_zero : ComponentNode F → Group → String → F
  known_or_zero n g key = or_zero (number n g key (some zero_float))

  -- `ram.number(…) if ram else None`
  abbrev ram_bandwidth : Option (ComponentNode F) → Option F
  ram_bandwidth none = none
  ram_bandwidth (some ram) = number ram Group.bandwidth "memory_gbps" none

  -- the two rows of `_feature_matrix`
  unfoldable pub cpu_features : ComponentNode F → Option (ComponentNode F) → Vector F
  cpu_features cpu ram = record {
    first = known_or_zero cpu Group.specs "single_thread_score";
    second = known_or_zero cpu Group.specs "multi_thread_score";
    third = or_zero (
        or_other (ram_bandwidth ram)
          (number cpu Group.bandwidth "memory_gbps" (some (py.literal 55 0))));
  }

  unfoldable pub gpu_features : ComponentNode F → Vector F
  gpu_features gpu = record {
    first = known_or_zero gpu Group.specs "raster_score";
    second = known_or_zero gpu Group.specs "vram_gb";
    third = known_or_zero gpu Group.specs "compute_score";
  }

  -- `value is not None and value > 0`
  abbrev pub is_known : Option F → Bool
  is_known none = false
  is_known (some x) = py.lt zero_float x

  -- the list of `_confidence`
  unfoldable pub confidence_inputs :
      (cpu gpu : ComponentNode F) → Option (ComponentNode F) → List (Option F)
  confidence_inputs cpu gpu ram =
      (number cpu Group.specs "single_thread_score" none
        ∷ number cpu Group.specs "multi_thread_score" none
        ∷ number gpu Group.specs "raster_score" none
        ∷ number gpu Group.specs "compute_score" none
        ∷ [])
      ++ elim ram [ none ↦ [] | some r ↦ number r Group.bandwidth "memory_gbps" none ∷ [] ]

  -- the end of `_confidence`: `known >= max(2, len(required) - 2)`, with an `int` difference
  unfoldable pub confidence_of : List (Option F) → Confidence
  confidence_of required =
      let known = length (filter is_known required) in
      if eqb known (length required)
      then Confidence.high
      else if leb 2 known && leb (length required) (known + 2)
      then Confidence.medium
      else Confidence.low

  -- `_total_power_w`
  unfoldable pub total_power_w : (cpu gpu : ComponentNode F) → F
  total_power_w cpu gpu = py.add (known_or_zero cpu Group.power "tdp_w") (
      or_zero (elim (number gpu Group.power "board_power_w" none) [
        | none ↦ number gpu Group.power "tdp_w" (some zero_float)
        | some x ↦ some x
      ]))

  -- `_thermal_derate_factor`
  unfoldable pub thermal_derate_factor : String → F → F
  thermal_derate_factor region total =
      if py.upper region == "SA" && py.le (py.literal 420 0) total
      then py.literal 96 2
      else py.literal 1 0

  -- `max(0.0, (left - right) / max(left, 0.001) * 100.0)`
  unfoldable pub shortfall_percent : (own other : F) → F
  shortfall_percent own other =
      max_of zero_float
        (py.mul (py.div (py.sub other own) (max_of other (py.literal 1 3))) (py.literal 100 0))

module _ {F : Type 0} ⦃py : Builtins F⦄ (np : Numpy F) where
  unfoldable pub cpu_capacity : ComponentNode F → Option (ComponentNode F) → Purpose → F
  cpu_capacity cpu ram purpose =
      np.dot (np.divide (cpu_features cpu ram) cpu_baseline) (purpose_weights purpose)

  unfoldable pub gpu_capacity : ComponentNode F → Purpose → F
  gpu_capacity gpu purpose =
      np.dot (np.divide (gpu_features gpu) gpu_baseline) (purpose_weights purpose)

  -- `expected_fps` after the derating, before the cap of the display
  unfoldable pub rendered_fps :
      (cpu gpu : ComponentNode F) → Option (ComponentNode F) → BuildPreferences F → F
  rendered_fps cpu gpu ram preferences =
      let balanced =
        min_of (cpu_capacity cpu ram preferences.purpose) (gpu_capacity gpu preferences.purpose) in
      let factor =
        py.div (resolution_pixels preferences.resolution) (resolution_pixels Resolution.full_hd) in
      let fps =
        np.clip (py.div (py.add (py.literal 62 0) (py.mul balanced (py.literal 138 0))) factor)
          (py.literal 18 0) (py.literal 420 0) in
      py.mul fps (thermal_derate_factor preferences.region (total_power_w cpu gpu))

  -- `calculate`
  unfoldable pub calculate :
      (cpu gpu : ComponentNode F)
      → Option (ComponentNode F)
      → BuildPreferences F
      → ℕ
      → PerformanceResponse F
  unfolding shortfall_percent
  calculate cpu gpu ram preferences display_refresh_hz =
      let one = py.literal 1 0 in
      let cpu_cap = cpu_capacity cpu ram preferences.purpose in
      let gpu_cap = gpu_capacity gpu preferences.purpose in
      let rendered = rendered_fps cpu gpu ram preferences in
      let refresh = of_nat display_refresh_hz in
      let display =
        max_of zero_float
          (py.mul (py.div (py.sub rendered refresh) (max_of rendered one)) (py.literal 100 0)) in
      let fps = min_of rendered refresh in
      let imbalance =
        py.div (py.abs (py.sub cpu_cap gpu_cap))
          (max_of (max_of cpu_cap gpu_cap) (py.literal 1 3)) in
      let memory = (np.divide (cpu_features cpu ram) cpu_baseline).third in
      let memory_penalty = max_of zero_float (py.mul (py.sub one memory) (py.literal 18 0)) in
      let frame_time = py.div (py.literal 1000 0) (max_of fps one) in
      let variance =
        np.clip
          (py.add (py.mul frame_time (py.add (py.literal 6 2) (py.mul imbalance (py.literal 22 2))))
            (py.mul memory_penalty (py.literal 12 2)))
          (py.literal 2 1) (py.literal 28 0) in
      let one_percent_low = max_of one (
        py.mul fps (
          py.sub one (
            min_of (py.literal 45 2)
              (py.mul (py.div variance (max_of frame_time one)) (py.literal 55 2))))) in
      record {
        expected_fps = py.round fps 1;
        one_percent_low_fps = py.round one_percent_low 1;
        frame_time_ms = py.round frame_time 2;
        frame_time_variance_ms = py.round variance 2;
        bottleneck = record {
          cpu_percent = py.round (shortfall_percent cpu_cap gpu_cap) 1;
          gpu_percent = py.round (shortfall_percent gpu_cap cpu_cap) 1;
          memory_percent = py.round memory_penalty 1;
          display_percent = py.round display 1;
        };
        confidence = confidence_of (confidence_inputs cpu gpu ram);
      }

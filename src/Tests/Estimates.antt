-- ===== src/Tests/Estimates.antt =====
-- `calculate` of backend/app/services/performance.py: concrete runs.
use ai_repo.Prelude.{◌≡◌, refl, ◌↔◌, some, none, arith}
use ai_repo.Runtime.{milli_builtins, Milli-IsOrdered, Milli-IsRounding}
use ai_repo.Domain.{Group, number}
use ai_repo.Performance.{calculate, of_nat, Confidence}
use ai_repo.Performance.Within.{IsWithin, IsPositive, calculate-IsWithin, calculate-high_iff}
use ai_repo.Tests.{numpy, cpu, gpu, ram}
use ai_repo.Tests.Builds.{preferences}

calculate-IsWithin_example :
    IsWithin (calculate numpy cpu gpu (some ram) preferences 144) (of_nat 144)
calculate-IsWithin_example =
    calculate-IsWithin numpy cpu gpu (some ram) preferences 144 Milli-IsOrdered Milli-IsRounding
      (ground arith) refl

calculate-high_iff_example :
    ((calculate numpy cpu gpu (some ram) preferences 144).confidence ≡ Confidence.high) ↔ (
      IsPositive (number cpu Group.specs "single_thread_score" none)
      × IsPositive (number cpu Group.specs "multi_thread_score" none)
      × IsPositive (number gpu Group.specs "raster_score" none)
      × IsPositive (number gpu Group.specs "compute_score" none)
      × IsPositive (number ram Group.bandwidth "memory_gbps" none))
calculate-high_iff_example = calculate-high_iff numpy cpu gpu (some ram) preferences 144

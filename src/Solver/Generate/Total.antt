-- ===== src/Solver/Generate/Total.antt =====
-- When `_select_multi_solution` of backend/app/services/build_solver.py returns.
use ai_repo.Prelude.{◌≡◌, some}
use ai_repo.Runtime.{Builtins}
use ai_repo.Domain.{ComponentKind, ComponentNode}
use ai_repo.Repository.{Repository}
use ai_repo.Performance.{Numpy}
use ai_repo.Solver.Parts.{BuildPreferences, CandidateBuild, part}
use ai_repo.Solver.Select.Total.{IsCheckable}

module _ {F : Type 0} ⦃py : Builtins F⦄ (np : Numpy F) (repository : Repository F)
    (preferences : BuildPreferences F) where
  -- The engine returns an answer for the build, and it has a CPU and a GPU.
  pub record IsWritable (c : CandidateBuild F) : Type 0 where
    pub checkable : IsCheckable repository c
    pub cpu : (node : ComponentNode F) × (part ComponentKind.cpu c.parts ≡ some node)
    pub gpu : (node : ComponentNode F) × (part ComponentKind.gpu c.parts ≡ some node)

-- ===== src/Solver/Parts.antt =====
-- The data of backend/app/services/build_solver.py: partial builds, preferences, candidates.
pub mod Kinds
use ai_repo.Prelude.{
  ℕ, String, Option, none, some, Bool, List, [], ◌∷◌, map, eqb, if◌then◌else◌, get_or,
}
use ai_repo.Runtime.{Builtins, zero_float, sum_from}
use ai_repo.Domain.{ComponentKind, ComponentNode, SelectedComponents}

abbrev pub solver_order : List ComponentKind
solver_order =
    ComponentKind.cpu ∷ ComponentKind.motherboard ∷ ComponentKind.ram ∷ ComponentKind.gpu
    ∷ ComponentKind.storage ∷ ComponentKind.cooler ∷ ComponentKind.case ∷ ComponentKind.psu ∷ []

abbrev pub max_valid_solver_builds : ℕ
max_valid_solver_builds = 120

pub data NoisePreference : Type 0 where
  quiet balanced performance : NoisePreference

pub data Purpose : Type 0 where
  gaming simulation workstation : Purpose

pub data Resolution : Type 0 where
  full_hd quad_hd ultra_hd : Resolution

pub record BuildPreferences (F : Type 0) : Type 0 where
  pub budget_usd : Option F
  pub purpose : Purpose
  pub resolution : Resolution
  pub display_refresh_hz : ℕ
  pub region : String
  pub brand_bias : List String
  pub size : Option String
  pub noise_preference : NoisePreference
  pub upgrade_path_priority : ℕ

unfoldable pub kind_index : ComponentKind → ℕ
kind_index ComponentKind.cpu = 0
kind_index ComponentKind.gpu = 1
kind_index ComponentKind.motherboard = 2
kind_index ComponentKind.ram = 3
kind_index ComponentKind.case = 4
kind_index ComponentKind.cooler = 5
kind_index ComponentKind.storage = 6
kind_index ComponentKind.psu = 7

unfoldable pub same_kind : ComponentKind → ComponentKind → Bool
unfolding kind_index
same_kind a b = eqb (kind_index a) (kind_index b)

-- `dict[ComponentKind, ComponentNode]`, in its order of insertion
abbrev pub Parts : Type 0 → Type 0
Parts F = List (ComponentKind × ComponentNode F)

module _ {F : Type 0} where
  -- `parts.get(kind)`
  unfoldable pub part : ComponentKind → Parts F → Option (ComponentNode F)
  part k [] = none
  part k ((j, n) ∷ parts) = if same_kind j k then some n else part k parts

  -- `{**parts, kind: node}`: an old key keeps its place
  unfoldable pub with_part : ComponentKind → ComponentNode F → Parts F → Parts F
  with_part k n [] = (k, n) ∷ []
  with_part k n ((j, m) ∷ parts) =
      if same_kind j k then (j, n) ∷ parts else (j, m) ∷ with_part k n parts

  abbrev id_of : Option (ComponentNode F) → Option String
  id_of none = none
  id_of (some n) = some n.id

  -- `_selection`
  unfoldable pub selection_of : Parts F → SelectedComponents
  selection_of parts = record {
    cpu_id = id_of (part ComponentKind.cpu parts);
    gpu_id = id_of (part ComponentKind.gpu parts);
    motherboard_id = id_of (part ComponentKind.motherboard parts);
    ram_id = id_of (part ComponentKind.ram parts);
    case_id = id_of (part ComponentKind.case parts);
    cooler_id = id_of (part ComponentKind.cooler parts);
    storage_id = id_of (part ComponentKind.storage parts);
    psu_id = id_of (part ComponentKind.psu parts);
  }

module _ {F : Type 0} ⦃py : Builtins F⦄ where
  -- `_node_price`
  abbrev pub node_price : ComponentNode F → F
  node_price n = get_or n.price_usd zero_float

  -- `_cost`
  unfoldable pub cost : Parts F → F
  cost parts =
      sum_from zero_float (map (λ (p : ComponentKind × ComponentNode F). node_price p.1) parts)

-- `CandidateBuild`
pub record CandidateBuild (F : Type 0) : Type 0 where
  pub selection : SelectedComponents
  pub parts : Parts F
  pub total_cost : F
  pub score : F
  pub performance_score : F
  pub value_score : F
  pub balanced_score : F
  pub compatibility_failures : ℕ

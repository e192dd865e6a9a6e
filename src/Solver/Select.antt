-- ===== src/Solver/Select.antt =====
-- The choices of `_select_multi_solution`, with `_first_unique_graph_valid`, `_first_graph_valid` and `_graph_valid` of
-- backend/app/services/build_solver.py. The solver's `_compatibility_cache` is passed along.
pub mod Memo
pub mod Sorted
pub mod Best
pub mod Total
use ai_repo.Prelude.{
  String, Option, none, some, Bool, true, false, ◌&&◌, List, [], ◌∷◌, ◌++◌, any, if◌then◌else◌,
  ◌==◌, Raises, ◌>>=◌,
}
use ai_repo.Runtime.{Builtins}
use ai_repo.Domain.{SelectedComponents, slots}
use ai_repo.Repository.{Repository}
use ai_repo.Compatibility.{CompatibilityRequest, CompatibilityResponse, check}
use ai_repo.Solver.Parts.{CandidateBuild}

-- The tuple of `_signature`; `slots` lists the ids in its order.
abbrev pub Signature : Type 0
Signature = List (Option String)

-- `a == b` of two entries
unfoldable pub same_id : Option String → Option String → Bool
same_id none none = true
same_id none (some b) = false
same_id (some a) none = false
same_id (some a) (some b) = a == b

-- `a == b` of two tuples
unfoldable pub same_signature : Signature → Signature → Bool
unfolding same_id
same_signature [] [] = true
same_signature [] (b ∷ bs) = false
same_signature (a ∷ as') [] = false
same_signature (a ∷ as') (b ∷ bs) = same_id a b && same_signature as' bs

-- `signature in used`
unfoldable pub is_used : List Signature → Signature → Bool
is_used used s = any (same_signature s) used

-- `sorted(xs, key=key, reverse=True)`: stable, the greatest first
module _ {F : Type 0} ⦃py : Builtins F⦄ {A : Type 0} (key : A → F) where
  unfoldable pub insert_desc : A → List A → List A
  insert_desc x [] = x ∷ []
  insert_desc x (y ∷ ys) =
      let rest = insert_desc x ys in if py.lt (key x) (key y) then y ∷ rest else x ∷ y ∷ ys

  unfoldable pub sorted_desc : List A → List A
  unfolding insert_desc
  sorted_desc [] = []
  sorted_desc (x ∷ xs) = insert_desc x (sorted_desc xs)

-- `_compatibility_cache`
abbrev pub Verdicts : Type 0 → Type 0
Verdicts F = List (Signature × CompatibilityResponse F)

unfoldable pub remembered : {F : Type 0} → Signature → Verdicts F → Option (CompatibilityResponse F)
remembered s [] = none
remembered s ((t, r) ∷ verdicts) = if same_signature t s then some r else remembered s verdicts

-- `CompatibilityRequest(selection=selection, qvl_required=True)`
abbrev pub full_request : SelectedComponents → CompatibilityRequest
full_request selection = record { selection = selection; qvl_required = true }

-- The labels with their choices, the signatures in use, and the cache.
pub record Chosen (F : Type 0) : Type 0 where
  pub selected : List (String × CandidateBuild F)
  pub used : List Signature
  pub verdicts : Verdicts F

module _ {F : Type 0} where
  -- What one turn of the loop does with its choice.
  unfoldable pub keep : String → Option (CandidateBuild F) → Chosen F → Chosen F
  keep label none chosen = chosen
  keep label (some c) chosen = record chosen {
    used = slots c.selection ∷ chosen.used;
    selected = chosen.selected ++ (label, c) ∷ [];
  }

module _ {F : Type 0} ⦃py : Builtins F⦄ where
  -- the three rankings
  abbrev pub pools_of : List (CandidateBuild F) → List (String × List (CandidateBuild F))
  pools_of valid =
      ("best_performance", sorted_desc (λ (c : CandidateBuild F). c.performance_score) valid)
      ∷ ("best_value", sorted_desc (λ (c : CandidateBuild F). c.value_score) valid)
      ∷ ("balanced", sorted_desc (λ (c : CandidateBuild F). c.balanced_score) valid)
      ∷ []

module _ {F : Type 0} ⦃py : Builtins F⦄ (repository : Repository F) where
  -- The answer in the cache, or the engine's, which is then stored.
  unfoldable pub verdict :
      SelectedComponents → Verdicts F → Raises (CompatibilityResponse F × Verdicts F)
  verdict selection verdicts = elim (remembered (slots selection) verdicts) [
    | some response ↦ some (response, verdicts)
    | none ↦ check repository (full_request selection) >>= λ response.
        some (response, (slots selection, response) ∷ verdicts)
  ]

  -- `_graph_valid`
  unfoldable pub graph_valid : SelectedComponents → Verdicts F → Raises (Bool × Verdicts F)
  unfolding verdict
  graph_valid selection verdicts = verdict selection verdicts >>= λ out. some (out.0.valid, out.1)

  -- `_first_unique_graph_valid`
  unfoldable pub first_unique_graph_valid :
      List (CandidateBuild F)
      → List Signature
      → Verdicts F
      → Raises (Option (CandidateBuild F) × Verdicts F)
  unfolding is_used graph_valid
  first_unique_graph_valid [] used verdicts = some (none, verdicts)
  first_unique_graph_valid (c ∷ pool) used verdicts = elim (is_used used (slots c.selection)) [
    | true ↦ first_unique_graph_valid pool used verdicts
    | false ↦ graph_valid c.selection verdicts >>= λ out. elim out.0 [
      | true ↦ some (some c, out.1)
      | false ↦ first_unique_graph_valid pool used out.1
    ]
  ]

  -- `_first_graph_valid`
  unfoldable pub first_graph_valid :
      List (CandidateBuild F) → Verdicts F → Raises (Option (CandidateBuild F) × Verdicts F)
  unfolding graph_valid
  first_graph_valid [] verdicts = some (none, verdicts)
  first_graph_valid (c ∷ pool) verdicts = graph_valid c.selection verdicts >>= λ out. elim out.0 [
    | true ↦ some (some c, out.1)
    | false ↦ first_graph_valid pool out.1
  ]

  -- The loop of `_select_multi_solution` over its labelled pools.
  unfoldable pub select_from :
      List (String × List (CandidateBuild F)) → Chosen F → Raises (Chosen F)
  unfolding first_unique_graph_valid keep
  select_from [] chosen = some chosen
  select_from ((label, pool) ∷ pools) chosen =
      first_unique_graph_valid pool chosen.used chosen.verdicts >>= λ out.
      select_from pools (keep label out.0 (record chosen { verdicts = out.1 }))

  -- `_select_multi_solution` up to its last line: the labelled choices
  unfoldable pub choose_builds : List (CandidateBuild F) → Verdicts F → Raises (Chosen F)
  unfolding select_from
  choose_builds valid verdicts =
      select_from (pools_of valid) (record { selected = []; used = []; verdicts = verdicts })

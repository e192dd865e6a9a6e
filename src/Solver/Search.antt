-- ===== src/Solver/Search.antt =====
-- `_search` of backend/app/services/build_solver.py: depth-first over the kinds in their order, with
-- the lists and the counters that it changes as an explicit state.
pub mod Leaves
pub mod Exhaustive
pub mod Complete
pub mod Plain
pub mod Tidy
use ai_repo.Prelude.{
  ℕ, suc, ◌+◌, String, ◌≡◌, Option, none, some, Bool, true, false, not, ◌&&◌, ◌||◌, List, [], ◌∷◌,
  ◌++◌, map, if◌then◌else◌, get_or, leb, ltb, eqb, length,
}
use ai_repo.Runtime.{Builtins, zero_float, min_from}
use ai_repo.Domain.{ComponentKind, ComponentNode}
use ai_repo.Repository.{Repository}
use ai_repo.Solver.Parts.{
  BuildPreferences, CandidateBuild, Parts, part, with_part, cost, node_price,
  max_valid_solver_builds,
}
use ai_repo.Solver.Feasible.{partial_is_possible}
use ai_repo.Solver.Options.{OptionCache, filtered_candidates}

pub record SearchState (F : Type 0) : Type 0 where
  pub valid : List (CandidateBuild F)
  pub closest : List (CandidateBuild F)
  pub explored : ℕ
  pub pruned : ℕ
  pub max_depth_reached : ℕ
  pub cache : OptionCache

module _ {F : Type 0} ⦃py : Builtins F⦄ where
  -- `min(prices) if prices else 0.0`
  unfoldable pub cheapest : List (ComponentNode F) → F
  cheapest [] = zero_float
  cheapest (n ∷ nodes) = min_from (node_price n) (map node_price nodes)

  -- The loop of `_remaining_cost_floor` runs from the last kind to the first: the sum for the later
  -- kinds and the floors behind this place.
  floors_from : (ComponentKind → List (ComponentNode F)) → List ComponentKind → F × List F
  floors_from catalog [] = (zero_float, zero_float ∷ [])
  floors_from catalog (kind ∷ order) =
      let (running, floors) = floors_from catalog order in
      let running' = py.add running (cheapest (catalog kind)) in (running', running' ∷ floors)

  -- `_remaining_cost_floor`: one entry for each depth, and 0.0 at the end
  unfoldable pub remaining_cost_floor :
      (ComponentKind → List (ComponentNode F)) → List ComponentKind → List F
  unfolding floors_from
  remaining_cost_floor catalog order = (floors_from catalog order).1

-- `floors[index]`; the search reads no index beyond the end
unfoldable pub floor_at : {F : Type 0} ⦃py : Builtins F⦄ → List F → ℕ → F
floor_at [] index = zero_float
floor_at (x ∷ floors) ℕ.zero = x
floor_at (x ∷ floors) (suc index) = floor_at floors index

-- The arguments that `_search` hands on unchanged, with the repository of the solver.
pub record Problem (F : Type 0) : Type 0 where
  pub repository : Repository F
  pub preferences : BuildPreferences F
  -- `_evaluate(parts, preferences, budget)`
  pub evaluate : Parts F → CandidateBuild F
  pub catalog : ComponentKind → List (ComponentNode F)
  pub budget : F
  pub floors : List F

-- `len(valid) >= MAX_VALID_SOLVER_BUILDS`
unfoldable pub is_full : {F : Type 0} → List (CandidateBuild F) → Bool
is_full valid = leb max_valid_solver_builds (length valid)

module _ {F : Type 0} ⦃py : Builtins F⦄ (problem : Problem F) where
  -- `compatibility_failures == 0 and total_cost <= budget`
  unfoldable pub is_good : CandidateBuild F → Bool
  is_good candidate =
      eqb candidate.compatibility_failures 0 && py.le candidate.total_cost problem.budget

  -- The end of the order: the build is complete.
  unfoldable pub record_build : Parts F → SearchState F → SearchState F
  record_build partial state =
      let candidate = problem.evaluate partial in
      if is_good candidate
      then record state { explored = state.explored + 1; valid = state.valid ++ candidate ∷ [] }
      else record state { explored = state.explored + 1; closest = state.closest ++ candidate ∷ [] }

  -- `max_depth_reached = max(max_depth_reached, depth)`
  abbrev pub note_depth : ℕ → SearchState F → SearchState F
  note_depth depth state = record state {
    max_depth_reached =
        if ltb state.max_depth_reached depth then depth else state.max_depth_reached;
  }

  abbrev pub count_pruned : SearchState F → SearchState F
  count_pruned state = record state { pruned = state.pruned + 1 }

  -- `partial_cost + cost_floor_by_depth[depth + 1] > budget * 1.45`
  abbrev pub too_dear : ℕ → Parts F → Bool
  too_dear depth next =
      py.lt (py.mul problem.budget (py.literal 145 2))
        (py.add (cost next) (floor_at problem.floors (suc depth)))

  -- Whether the loop goes on with `next` rather than count it as pruned.
  unfoldable pub goes_on : ℕ → Parts F → Bool
  goes_on depth next = partial_is_possible next problem.preferences && not (too_dear depth next)

  -- The `for` loop over the candidates; `deeper` is the recursive call at the next depth.
  unfoldable pub visit :
      (deeper : Parts F → SearchState F → SearchState F)
      → ComponentKind
      → ℕ
      → Parts F
      → List (ComponentNode F)
      → SearchState F
      → SearchState F
  visit deeper kind depth partial [] state = state
  visit deeper kind depth partial (node ∷ nodes) state =
      let next = with_part kind node partial in
      let rest =
        visit deeper kind depth partial nodes
          (elim (goes_on depth next) [ false ↦ count_pruned state | true ↦ deeper next state ]) in
      if is_full state.valid then state else rest

  unfoldable pub search : List ComponentKind → ℕ → Parts F → SearchState F → SearchState F
  search [] depth partial state =
      if is_full state.valid then state else record_build partial (note_depth depth state)
  search (kind ∷ order) depth partial state =
      let (candidates, cache) =
        filtered_candidates problem.repository problem.preferences problem.catalog kind partial
          state.cache in
      let rest =
        visit (search order (suc depth)) kind depth partial candidates
          (record (note_depth depth state) { cache = cache }) in
      if is_full state.valid then state else rest

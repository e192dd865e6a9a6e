-- ===== src/Solver/Generate.antt =====
-- `generate` of backend/app/services/build_solver.py: the answer is made from the lists that the
-- search leaves. Timings, log lines and the explanatory sentences about parts are left out.
pub mod Offers
pub mod Honest
pub mod Total
use ai_repo.Prelude.{
  ℕ, String, Option, none, some, Bool, true, false, not, ◌&&◌, ◌||◌, List, [], ◌∷◌, ◌++◌, map,
  if◌then◌else◌, is_empty, get_or, leb, ltb, eqb, ◌==◌, length, Raises, ◌>>=◌,
}
use ai_repo.Runtime.{Builtins, zero_float, truthy}
use ai_repo.Domain.{
  ComponentKind, ComponentNode, Group, SelectedComponents, property, value_truthy,
  first_known_number, psu_wattage_fields,
}
use ai_repo.Repository.{Repository}
use ai_repo.Compatibility.{CompatibilityResponse}
use ai_repo.Performance.{Numpy, PerformanceResponse, calculate}
use ai_repo.Solver.Parts.{
  BuildPreferences, Purpose, Resolution, CandidateBuild, Parts, part, node_price, solver_order,
}
use ai_repo.Solver.Search.{Problem, SearchState, search, remaining_cost_floor}
use ai_repo.Solver.Search.Complete.{start}
use ai_repo.Solver.Select.{Verdicts, Chosen, verdict, first_graph_valid, choose_builds}
use ai_repo.Solver.Score.{load_catalog, on_am5, has_fast_memory}

pub record BuildGenerateRequest (F : Type 0) : Type 0 where
  pub budget_usd : F
  pub purpose : String
  pub resolution : String
  pub preferences : BuildPreferences F
  pub max_candidates_per_type : ℕ

-- `GeneratedPart`, without the fields that are copied from the raw data
pub record GeneratedPart (F : Type 0) : Type 0 where
  pub kind : ComponentKind
  pub id : String
  pub name : String
  pub brand : Option String
  pub price_usd : F

pub record GeneratedBuild (F : Type 0) : Type 0 where
  pub label : String
  pub parts : List (GeneratedPart F)
  pub selection : SelectedComponents
  pub total_cost_usd : F
  pub score : F
  pub performance : PerformanceResponse F
  pub compatibility : CompatibilityResponse F
  pub longevity_notes : List String

pub data OfferStatus : Type 0 where
  valid closest_valid no_solution : OfferStatus

pub record BuildGenerateResponse (F : Type 0) : Type 0 where
  pub builds : List (GeneratedBuild F)
  pub compatibility_status : OfferStatus
  pub explored_configurations : ℕ
  pub pruned_configurations : ℕ
  pub valid_build_count : ℕ
  pub max_depth_reached : ℕ
  pub fallback_explanation : Option String

abbrev pub note_if : Bool → String → List String
note_if b s = if b then s ∷ [] else []

-- The literal types of `purpose` and `resolution`: another text is refused.
abbrev pub parse_purpose : String → Raises Purpose
parse_purpose s =
    if s == "gaming"
    then some Purpose.gaming
    else if s == "simulation"
    then some Purpose.simulation
    else if s == "workstation"
    then some Purpose.workstation
    else none

abbrev pub parse_resolution : String → Raises Resolution
parse_resolution s =
    if s == "1080p"
    then some Resolution.full_hd
    else if s == "1440p"
    then some Resolution.quad_hd
    else if s == "4K"
    then some Resolution.ultra_hd
    else none

module _ {F : Type 0} where
  -- `_normalized_preferences`
  unfoldable pub normalized_preferences : BuildGenerateRequest F → Raises (BuildPreferences F)
  normalized_preferences request = parse_purpose request.purpose >>= λ purpose.
      parse_resolution request.resolution >>= λ resolution. some (record request.preferences {
        budget_usd = some request.budget_usd;
        purpose = purpose;
        resolution = resolution;
      })

module _ {F : Type 0} where
  abbrev pub response_of :
      SearchState F
      → List (GeneratedBuild F)
      → OfferStatus
      → Option String
      → BuildGenerateResponse F
  response_of state builds status explanation = record {
    builds = builds;
    compatibility_status = status;
    explored_configurations = state.explored;
    pruned_configurations = state.pruned;
    valid_build_count = length state.valid;
    max_depth_reached = state.max_depth_reached;
    fallback_explanation = explanation;
  }

module _ {F : Type 0} ⦃py : Builtins F⦄ where
  -- `<` of the tuples (compatibility_failures, total_cost)
  abbrev pub is_nearer : CandidateBuild F → CandidateBuild F → Bool
  is_nearer a b =
      ltb a.compatibility_failures b.compatibility_failures
      || eqb a.compatibility_failures b.compatibility_failures && py.lt a.total_cost b.total_cost

  -- `sorted(closest, key=…)`: stable, the nearest first
  unfoldable pub insert_nearer :
      CandidateBuild F → List (CandidateBuild F) → List (CandidateBuild F)
  insert_nearer c [] = c ∷ []
  insert_nearer c (d ∷ ds) =
      let rest = insert_nearer c ds in if is_nearer d c then d ∷ rest else c ∷ d ∷ ds

  unfoldable pub sorted_nearest : List (CandidateBuild F) → List (CandidateBuild F)
  unfolding insert_nearer
  sorted_nearest [] = []
  sorted_nearest (c ∷ cs) = insert_nearer c (sorted_nearest cs)

  -- the two notes on a power supply
  abbrev pub psu_notes : Option (ComponentNode F) → List String
  psu_notes none = []
  psu_notes (some psu) =
      note_if
        (elim (first_known_number psu psu_wattage_fields) [
          | none ↦ false
          | some w ↦ truthy w && py.le (py.literal 750 0) w
        ])
        "750W+ PSU capacity leaves reasonable GPU upgrade headroom if connectors are verified."
      ++ note_if (not (value_truthy (property psu Group.specs "efficiency_rating")))
          "PSU efficiency rating is unknown, so long-term power confidence is lower."

  -- `_longevity_notes`
  unfoldable pub longevity_notes : Parts F → BuildPreferences F → List String
  longevity_notes parts preferences =
      let notes =
        note_if (on_am5 (part ComponentKind.motherboard parts))
          "AM5 platform gives a practical future CPU upgrade path, subject to BIOS support."
        ++ (psu_notes (part ComponentKind.psu parts)
            ++ note_if (has_fast_memory (part ComponentKind.ram parts))
                "DDR5 memory speed is a healthy baseline for current gaming and creator workloads.") in
      if is_empty notes
      then if leb 7 preferences.upgrade_path_priority
        then "Upgrade-path confidence is limited until motherboard, PSU, and RAM metadata improves."
          ∷ []
        else "Longevity guidance is limited by currently available component metadata." ∷ []
      else notes

  abbrev pub generated_part : ComponentKind × ComponentNode F → GeneratedPart F
  generated_part (kind, node) = record {
    kind = kind;
    id = node.id;
    name = node.name;
    brand = node.brand;
    price_usd = node_price node;
  }

module _ {F : Type 0} ⦃py : Builtins F⦄ (np : Numpy F) (repository : Repository F)
    (preferences : BuildPreferences F) where
  -- `_to_generated_build`
  unfoldable pub to_generated_build :
      String → CandidateBuild F → Verdicts F → Raises (GeneratedBuild F × Verdicts F)
  to_generated_build label candidate verdicts =
      verdict repository candidate.selection verdicts >>= λ out.
      part ComponentKind.cpu candidate.parts >>= λ cpu.
      part ComponentKind.gpu candidate.parts >>= λ gpu. some (
        record {
          label = label;
          parts = map generated_part candidate.parts;
          selection = candidate.selection;
          total_cost_usd = py.round candidate.total_cost 2;
          score = py.round candidate.score 3;
          performance =
              calculate np cpu gpu (part ComponentKind.ram candidate.parts) preferences
                preferences.display_refresh_hz;
          compatibility = out.0;
          longevity_notes = longevity_notes candidate.parts preferences;
        },
        out.1,
      )

  -- the last line of `_select_multi_solution`: the choices written out in turn
  unfoldable pub to_generated_builds :
      List (String × CandidateBuild F) → Verdicts F → Raises (List (GeneratedBuild F))
  unfolding to_generated_build
  to_generated_builds [] verdicts = some []
  to_generated_builds ((label, c) ∷ selected) verdicts =
      to_generated_build label c verdicts >>= λ out.
      to_generated_builds selected out.1 >>= λ builds. some (out.0 ∷ builds)

  -- `_select_multi_solution`, with the solver's cache at its start
  unfoldable pub select_multi_solution :
      List (CandidateBuild F) → Verdicts F → Raises (List (GeneratedBuild F))
  unfolding to_generated_builds
  select_multi_solution builds verdicts = choose_builds repository builds verdicts >>= λ chosen.
      to_generated_builds chosen.selected chosen.verdicts

  -- The answer when some build is valid.
  unfoldable pub offer_valid : SearchState F → Raises (BuildGenerateResponse F)
  unfolding select_multi_solution
  offer_valid state = select_multi_solution state.valid [] >>= λ builds. some (
      if is_empty builds
      then response_of state [] OfferStatus.no_solution (
          some
            "Local pruning found candidates, but the final graph engine rejected each sampled build.")
      else response_of state builds OfferStatus.valid none)

  -- The answer when none is.
  unfoldable pub offer_closest : SearchState F → Raises (BuildGenerateResponse F)
  unfolding to_generated_build
  offer_closest state = first_graph_valid repository (sorted_nearest state.closest) [] >>= λ found.
      elim found.0 [
        | none ↦ some (
            response_of state [] OfferStatus.no_solution (
              some
                "Neo4j did not return enough component candidates to build a complete configuration."))
        | some c ↦ to_generated_build "closest_valid" c found.1 >>= λ out. some (
            response_of state (out.0 ∷ []) OfferStatus.closest_valid (
              some
                "No configuration satisfied every constraint inside budget. The returned configuration is the nearest graph-evaluated candidate by failure count and cost."))
      ]

  -- `if valid: … else: …`
  unfoldable pub offer : SearchState F → Raises (BuildGenerateResponse F)
  unfolding offer_valid offer_closest
  offer state = if is_empty state.valid then offer_closest state else offer_valid state

-- `generate`. `evaluated` stands for `_evaluate`, at the complete builds where it returns.
module _ {F : Type 0} ⦃py : Builtins F⦄ (np : Numpy F) (repository : Repository F)
    (evaluated : BuildPreferences F → Parts F → CandidateBuild F) where
  abbrev pub problem_of : BuildGenerateRequest F → BuildPreferences F → Problem F
  problem_of request preferences =
      let catalog = load_catalog repository request.max_candidates_per_type preferences in
      record {
        repository = repository;
        preferences = preferences;
        evaluate = evaluated preferences;
        catalog = catalog;
        budget = request.budget_usd;
        floors = remaining_cost_floor catalog solver_order;
      }

  unfoldable pub generate : BuildGenerateRequest F → Raises (BuildGenerateResponse F)
  unfolding normalized_preferences offer
  generate request = normalized_preferences request >>= λ preferences.
      offer np repository preferences
        (search (problem_of request preferences) solver_order 0 [] start)

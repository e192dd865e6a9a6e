-- ===== src/Solver/Options.antt =====
-- `_filtered_candidates` of backend/app/services/build_solver.py and its cache of option ids.
pub mod Keys
pub mod Consistent
pub mod Transparent
use ai_repo.Prelude.{
  ℕ, String, ◌≡◌, Option, none, some, Bool, true, false, ◌&&◌, List, [], ◌∷◌, map, elem, ◌==◌,
  if◌then◌else◌, get_or, filter,
}
use ai_repo.Text.{◌⧺◌, contains}
use ai_repo.Runtime.{Builtins}
use ai_repo.Domain.{ComponentKind, ComponentNode, Group, SelectedComponents, property_or_empty, str}
use ai_repo.Repository.{Repository}
use ai_repo.Solver.Parts.{BuildPreferences, Parts, part}

abbrev pub CacheKey : Type 0
CacheKey = String × String

-- `_option_cache`: the newest entry of a key is the one that is read.
abbrev pub OptionCache : Type 0
OptionCache = List (CacheKey × List String)

unfoldable pub cached : CacheKey → OptionCache → Option (List String)
cached k [] = none
cached (tag, text) (((tag', text'), ids) ∷ cache) =
    if tag' == tag && text' == text then some ids else cached (tag, text) cache

abbrev pub no_selection : SelectedComponents
no_selection = record {
  cpu_id = none;
  gpu_id = none;
  motherboard_id = none;
  ram_id = none;
  case_id = none;
  cooler_id = none;
  storage_id = none;
  psu_id = none;
}

abbrev pub option_limit : ℕ
option_limit = 120

module _ {F : Type 0} where
  -- `node.id if node else "*"`
  abbrev pub id_or_star : Option (ComponentNode F) → String
  id_or_star none = "*"
  id_or_star (some n) = n.id

  abbrev pub optional_id : Option (ComponentNode F) → Option String
  optional_id none = none
  optional_id (some n) = some n.id

  abbrev pub size_or_star : BuildPreferences F → String
  size_or_star preferences = get_or preferences.size "*"

  abbrev pub motherboard_key : BuildPreferences F → ComponentNode F → CacheKey
  motherboard_key preferences cpu =
      ("motherboards_for_cpu", cpu.id ⧺ ":" ⧺ size_or_star preferences)

  abbrev pub ram_key : ComponentNode F → CacheKey
  ram_key board = ("ram_for_board", board.id)

  abbrev pub case_key :
      BuildPreferences F → Option (ComponentNode F) → Option (ComponentNode F) → CacheKey
  case_key preferences board gpu = (
    "cases_for_board_gpu",
    id_or_star board ⧺ ":" ⧺ id_or_star gpu ⧺ ":" ⧺ size_or_star preferences,
  )

  -- `[candidate for candidate in candidates if candidate.id in allowed]`
  abbrev pub with_ids : List String → List (ComponentNode F) → List (ComponentNode F)
  with_ids allowed = filter (λ (c : ComponentNode F). elem c.id allowed)

module _ {F : Type 0} ⦃py : Builtins F⦄ (repository : Repository F)
    (preferences : BuildPreferences F) where
  -- the ids of `component_options` for a processor, a board, and a board with a graphics card
  abbrev pub motherboard_ids : ComponentNode F → List String
  motherboard_ids cpu =
      repository.component_options ComponentKind.motherboard
        (record no_selection { cpu_id = some cpu.id }) option_limit true preferences.size

  abbrev pub ram_ids : ComponentNode F → List String
  ram_ids board =
      repository.component_options ComponentKind.ram
        (record no_selection { motherboard_id = some board.id }) option_limit true none

  abbrev pub case_ids : Option (ComponentNode F) → Option (ComponentNode F) → List String
  case_ids board gpu =
      repository.component_options ComponentKind.case
        (record no_selection { motherboard_id = optional_id board; gpu_id = optional_id gpu })
        option_limit true none

  -- `preferences.size in str(…)`, where a size is asked for
  abbrev pub size_matches : ComponentNode F → Bool
  size_matches candidate = elim preferences.size [
    | none ↦ true
    | some size ↦
        contains size (str (property_or_empty candidate Group.specs "supported_form_factors"))
  ]

  abbrev pub cases_for : List (ComponentNode F) → List String → List (ComponentNode F)
  cases_for candidates allowed = filter size_matches (with_ids allowed candidates)

  -- Reads the cache, or keeps what `store` says of the answer to the query.
  abbrev pub through_cache :
      CacheKey
      → List (ComponentNode F)
      → (answer : List (ComponentNode F)) → (store : List String) → OptionCache
      → List (ComponentNode F) × OptionCache
  through_cache key candidates answer store cache = elim (cached key cache) [
    | none ↦ (answer, (key, store) ∷ cache)
    | some allowed ↦ (with_ids allowed candidates, cache)
  ]

  abbrev pub ids_of : List (ComponentNode F) → List String
  ids_of = map (λ (n : ComponentNode F). n.id)

  filtered_motherboards :
      List (ComponentNode F)
      → Option (ComponentNode F)
      → OptionCache
      → List (ComponentNode F) × OptionCache
  filtered_motherboards candidates none cache = (candidates, cache)
  filtered_motherboards candidates (some cpu) cache =
      through_cache (motherboard_key preferences cpu) candidates
        (with_ids (motherboard_ids cpu) candidates) (motherboard_ids cpu) cache

  filtered_ram :
      List (ComponentNode F)
      → Option (ComponentNode F)
      → OptionCache
      → List (ComponentNode F) × OptionCache
  filtered_ram candidates none cache = (candidates, cache)
  filtered_ram candidates (some board) cache =
      through_cache (ram_key board) candidates (with_ids (ram_ids board) candidates) (ram_ids board)
        cache

  filtered_cases :
      List (ComponentNode F)
      → (board gpu : Option (ComponentNode F)) → OptionCache
      → List (ComponentNode F) × OptionCache
  filtered_cases candidates board gpu cache =
      through_cache (case_key preferences board gpu) candidates
        (cases_for candidates (case_ids board gpu))
        (ids_of (cases_for candidates (case_ids board gpu))) cache

  -- `_filtered_candidates(kind, partial, catalog, preferences)`, with the cache before and after
  unfoldable pub filtered_candidates :
      (ComponentKind → List (ComponentNode F))
      → ComponentKind
      → Parts F
      → OptionCache
      → List (ComponentNode F) × OptionCache
  unfolding filtered_motherboards filtered_ram filtered_cases
  filtered_candidates catalog ComponentKind.motherboard partial cache =
      filtered_motherboards (catalog ComponentKind.motherboard) (part ComponentKind.cpu partial)
        cache
  filtered_candidates catalog ComponentKind.ram partial cache =
      filtered_ram (catalog ComponentKind.ram) (part ComponentKind.motherboard partial) cache
  filtered_candidates catalog ComponentKind.case partial cache =
      filtered_cases (catalog ComponentKind.case) (part ComponentKind.motherboard partial)
        (part ComponentKind.gpu partial) cache
  filtered_candidates catalog kind partial cache = (catalog kind, cache)

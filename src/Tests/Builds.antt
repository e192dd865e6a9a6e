-- ===== src/Tests/Builds.antt =====
-- The search of backend/app/services/build_solver.py: concrete runs.
use ai_repo.Prelude.{
  arith, ◌≡◌, refl, sym, ◌∙◌, inl, inr, ◌<◌, some, true, false, not, [], ◌∷◌, In, All, length, map,
  filter, take, ◌==◌, eq_iff,
}
use mathlib.Core.Bool.{false≢true}
use ai_repo.Solver.Options.Keys.{has_no_colon}
use ai_repo.Runtime.{Milli, milli_builtins}
use ai_repo.Text.{split_values}
use ai_repo.Compatibility.Power.{total_power_draw}
use ai_repo.Compatibility.Bus.{required_lanes, header_supply, header_requirements, requested_gbps}
use ai_repo.Domain.{ComponentKind, ComponentNode}
use ai_repo.Solver.Parts.{
  BuildPreferences, NoisePreference, Purpose, Resolution, CandidateBuild, Parts, part, with_part,
  cost, selection_of, solver_order, same_kind, kind_index, max_valid_solver_builds,
}
use ai_repo.Solver.Options.{filtered_candidates, cached}
use ai_repo.Solver.Feasible.{
  partial_is_possible, usb_possible, pcie_possible, required_cooling_headroom, psu_possible,
}
use ai_repo.Domain.{
  number, first_known_number, lookup, property, property_or_empty, float_of, scalar_str, str,
  value_eq, split_spec_value,
}
use ai_repo.Solver.Options.Consistent.{IsPlain, HasUniqueIds, IsConsistent, nil-IsConsistent}
use ai_repo.Solver.Options.Transparent.{HasPlainIds, options, filtered_candidates_transparent}
use ai_repo.Solver.Search.{
  Problem, cheapest, remaining_cost_floor, floor_at, is_good, search, visit, record_build, is_full,
  goes_on,
}
use ai_repo.Solver.Search.Leaves.{leaves, branches}
use ai_repo.Solver.Search.Exhaustive.{HasFitCatalog}
use ai_repo.Solver.Search.Complete.{Completes, leaves-Completes, start, found, search-valid_iff}
use ai_repo.Solver.Search.Plain.{is_affordable, possible_builds, search-results}
use ai_repo.Solver.Search.Tidy.{IsTidy, search-IsTidy}
use ai_repo.Solver.Score.{evaluate}
use ai_repo.Solver.Score.Checked.{Holds, complete-Holds, complete-evaluates}
use ai_repo.Tests.{
  numpy, cpu, board, case, gpu, long_gpu, ram, storage, cooler, psu, repository, catalog,
}

abbrev pub preferences : BuildPreferences Milli
preferences = record {
  budget_usd = some 2000000;
  purpose = Purpose.gaming;
  resolution = Resolution.quad_hd;
  display_refresh_hz = 144;
  region = "us";
  brand_bias = [];
  size = some "ATX";
  noise_preference = NoisePreference.balanced;
  upgrade_path_priority = 5;
}

-- An evaluation that looks at the cost alone.
abbrev pub priced : Parts Milli → CandidateBuild Milli
priced parts = record {
  selection = selection_of parts;
  parts = parts;
  total_cost = cost parts;
  score = 0;
  performance_score = 0;
  value_score = 0;
  balanced_score = 0;
  compatibility_failures = 0;
}

abbrev pub problem : Problem Milli
problem = record {
  repository = repository;
  preferences = preferences;
  evaluate = priced;
  catalog = catalog;
  budget = 2000000;
  floors = remaining_cost_floor catalog solver_order;
}

unique_cases : HasUniqueIds (catalog ComponentKind.case)
unique_cases a b (inl ha) (inl hb) e = ha ∙ sym hb
unique_cases a b (inl ha) (inr hb) e = absurd hb
unique_cases a b (inr ha) hb e = absurd ha

-- An id without the two letters that stand in the keys of the cache.
plain : (n : ComponentNode Milli) → has_no_colon n.id ≡ true → (n.id == "*") ≡ false → IsPlain n
plain n e k = record {
  no_colon = e;
  no_star = λ star. absurd (false≢true (sym k ∙ (eq_iff n.id "*").1 star));
}

catalog-IsPlain : (kind : ComponentKind) → All IsPlain (catalog kind)
unfolding has_no_colon
catalog-IsPlain ComponentKind.cpu = (plain cpu refl refl, tt)
catalog-IsPlain ComponentKind.gpu = (plain gpu refl refl, (plain long_gpu refl refl, tt))
catalog-IsPlain ComponentKind.motherboard = (plain board refl refl, tt)
catalog-IsPlain ComponentKind.ram = (plain ram refl refl, tt)
catalog-IsPlain ComponentKind.case = (plain case refl refl, tt)
catalog-IsPlain ComponentKind.cooler = (plain cooler refl refl, tt)
catalog-IsPlain ComponentKind.storage = (plain storage refl refl, tt)
catalog-IsPlain ComponentKind.psu = (plain psu refl refl, tt)

pub fit : HasFitCatalog problem
fit = record { unique = unique_cases; plain = catalog-IsPlain }

abbrev pub whole : Parts Milli
whole =
    (ComponentKind.cpu, cpu)
    ∷ (ComponentKind.motherboard, board)
    ∷ (ComponentKind.ram, ram)
    ∷ (ComponentKind.gpu, gpu)
    ∷ (ComponentKind.storage, storage)
    ∷ (ComponentKind.cooler, cooler)
    ∷ (ComponentKind.case, case)
    ∷ (ComponentKind.psu, psu)
    ∷ []

whole-HasPlainIds : HasPlainIds whole
unfolding part same_kind kind_index
whole-HasPlainIds ComponentKind.cpu = (catalog-IsPlain ComponentKind.cpu).0
whole-HasPlainIds ComponentKind.gpu = (catalog-IsPlain ComponentKind.gpu).0
whole-HasPlainIds ComponentKind.motherboard = (catalog-IsPlain ComponentKind.motherboard).0
whole-HasPlainIds ComponentKind.ram = (catalog-IsPlain ComponentKind.ram).0
whole-HasPlainIds ComponentKind.case = (catalog-IsPlain ComponentKind.case).0
whole-HasPlainIds ComponentKind.cooler = (catalog-IsPlain ComponentKind.cooler).0
whole-HasPlainIds ComponentKind.storage = (catalog-IsPlain ComponentKind.storage).0
whole-HasPlainIds ComponentKind.psu = (catalog-IsPlain ComponentKind.psu).0

search-valid_iff_example :
    (In (priced whole) (found problem solver_order).valid
      → (b : Parts Milli) × Completes problem solver_order 0 [] b
        × (priced whole ≡ priced b)
        × (is_good problem (priced whole) ≡ true))
    × (length (found problem solver_order).valid < max_valid_solver_builds
        → (b : Parts Milli) → Completes problem solver_order 0 [] b
        → is_good problem (priced b) ≡ true
        → In (priced b) (found problem solver_order).valid)
search-valid_iff_example = search-valid_iff problem solver_order fit (priced whole)

search-results_example :
    ((found problem solver_order).valid
      ≡ take max_valid_solver_builds
          (filter (is_affordable problem) (map priced (possible_builds problem solver_order))))
    × (length (filter (is_affordable problem) (map priced (possible_builds problem solver_order)))
          < max_valid_solver_builds
        → (found problem solver_order).closest
          ≡ filter
              (λ c. not (is_affordable problem c))
              (map priced (possible_builds problem solver_order)))
search-results_example = search-results problem solver_order fit

filtered_candidates_transparent_example :
    ((filtered_candidates repository preferences catalog ComponentKind.case whole []).0
      ≡ options repository preferences catalog ComponentKind.case whole)
    × IsConsistent repository preferences catalog
        (filtered_candidates repository preferences catalog ComponentKind.case whole []).1
filtered_candidates_transparent_example =
    filtered_candidates_transparent repository preferences catalog ComponentKind.case whole []
      unique_cases whole-HasPlainIds (nil-IsConsistent repository preferences catalog)

-- The search finds one build inside the budget and rejects the long card by its clearance.
found_one : (found problem solver_order).valid ≡ priced whole ∷ []
unfolding search visit record_build is_full is_good goes_on filtered_candidates cached part
    with_part same_kind kind_index cost partial_is_possible number first_known_number
    remaining_cost_floor floor_at selection_of value_eq split_spec_value cheapest lookup property
    property_or_empty float_of scalar_str str usb_possible pcie_possible required_cooling_headroom
    psu_possible required_lanes split_values header_supply header_requirements requested_gbps
    total_power_draw
found_one = refl

search-IsTidy_example : IsTidy problem (search problem solver_order 0 [] start)
search-IsTidy_example =
    search-IsTidy problem solver_order 0 [] start
      (record { good = tt; rejected = tt; capped = omega arith; counted = omega arith })

-- The long card does not fit the case, so one complete build is left.
one_leaf : leaves problem solver_order 0 [] ≡ whole ∷ []
unfolding leaves branches options is_full is_good goes_on filtered_candidates cached part with_part
    same_kind kind_index cost partial_is_possible number first_known_number remaining_cost_floor
    floor_at selection_of value_eq split_spec_value cheapest lookup property property_or_empty
    float_of scalar_str str usb_possible pcie_possible required_cooling_headroom psu_possible
    required_lanes split_values header_supply header_requirements requested_gbps total_power_draw
one_leaf = refl

whole-Completes : Completes problem solver_order 0 [] whole
whole-Completes = leaves-Completes problem solver_order 0 [] whole (rw one_leaf (inl refl))

complete-Holds_example : Holds problem whole ComponentKind.gpu
complete-Holds_example = complete-Holds problem whole-Completes ComponentKind.gpu

complete-evaluates_example :
    (c : CandidateBuild Milli) × (evaluate numpy preferences 2000000 whole ≡ some c)
    × (c.compatibility_failures ≡ 0)
    × (c.total_cost ≡ cost whole)
    × (c.selection ≡ selection_of whole)
complete-evaluates_example = complete-evaluates problem numpy preferences 2000000 whole-Completes

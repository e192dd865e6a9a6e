-- ===== src/Tests/Choices.antt =====
-- The choices and the answer of backend/app/services/build_solver.py: concrete runs.
use ai_repo.Prelude.{String, ◌≡◌, refl, inl, some, true, List, [], ◌∷◌, In, get_or}
use ai_repo.Runtime.{Milli, milli_builtins, Milli-IsOrdered}
use ai_repo.Domain.{
  lookup, ids, number, first_known_number, property, property_or_empty, float_of, scalar_str, str,
  value_eq, split_spec_value,
}
use ai_repo.Geometry.{detect_collisions, volumes_of, volume_from_component}
use ai_repo.Compatibility.{CompatibilityResponse, check}
use ai_repo.Compatibility.Power.{power_check, total_power_draw}
use ai_repo.Compatibility.Space.{physical_collision_check}
use ai_repo.Solver.Parts.{
  BuildPreferences, CandidateBuild, Parts, part, with_part, cost, selection_of, same_kind,
  kind_index, solver_order,
}
use ai_repo.Solver.Search.{
  is_good, cheapest, remaining_cost_floor, floor_at, search, visit, record_build, is_full, goes_on,
}
use ai_repo.Solver.Select.{Chosen, pools_of, full_request, choose_builds}
use ai_repo.Solver.Select.Memo.{is_accepted, picks, AreFaithful, nil-AreFaithful, select-picks}
use ai_repo.Solver.Select.Best.{AreDistinct, select-AreDistinct, select-best}
use ai_repo.Solver.Select.Total.{IsCheckable, choose_builds-returns}
use ai_repo.Solver.Score.{evaluate}
use ai_repo.Solver.Generate.{
  BuildGenerateRequest, BuildGenerateResponse, select_multi_solution, generate,
  normalized_preferences, problem_of,
}
use ai_repo.Solver.Generate.Honest.{IsHonest, generate-IsHonest}
use ai_repo.Solver.Search.Complete.{found}
use ai_repo.Text.{split_values}
use ai_repo.Compatibility.Bus.{required_lanes, header_supply, header_requirements, requested_gbps}
use ai_repo.Solver.Options.{filtered_candidates, cached}
use ai_repo.Solver.Feasible.{
  partial_is_possible, usb_possible, pcie_possible, required_cooling_headroom, psu_possible,
}
use ai_repo.Tests.{repository, numpy}
use ai_repo.Tests.Builds.{preferences, priced, whole}

abbrev candidates : List (CandidateBuild Milli)
candidates = priced whole ∷ []

checkable : IsCheckable repository (priced whole)
unfolding check power_check physical_collision_check detect_collisions volumes_of ids
    volume_from_component lookup selection_of part same_kind
checkable = (_, refl)

accepted : is_accepted repository (priced whole) ≡ true
unfolding is_accepted check power_check physical_collision_check detect_collisions volumes_of ids
    volume_from_component lookup selection_of part same_kind ai_repo.Compatibility.fit_checks
    ai_repo.Compatibility.Fit.socket_check ai_repo.Compatibility.component
    ai_repo.Compatibility.Fit.ram_check ai_repo.Compatibility.Fit.case_fit_checks split_spec_value
    property_or_empty split_values number ai_repo.Compatibility.Fit.cooler_check first_known_number
    ai_repo.Compatibility.bus_checks ai_repo.Compatibility.Bus.pcie_lane_check required_lanes
    ai_repo.Compatibility.Bus.usb_topology_check ai_repo.Compatibility.Bus.headers_suffice
    header_requirements header_supply requested_gbps total_power_draw float_of property scalar_str
    str kind_index ai_repo.Domain.value_truthy ai_repo.Geometry.collisions_among
accepted = refl

chosen : (out : Chosen Milli) × (choose_builds repository candidates [] ≡ some out)
chosen = choose_builds-returns repository candidates [] (checkable, tt)

select-picks_example :
    (chosen.0.selected ≡ picks repository (pools_of candidates) [])
    × AreFaithful repository chosen.0.verdicts
select-picks_example = select-picks repository candidates [] (nil-AreFaithful repository) chosen.1

select-AreDistinct_example :
    AreDistinct repository chosen.0.selected
    × ((p : String × CandidateBuild Milli)
        → In p chosen.0.selected
        → In p.1 candidates
          × (r : CompatibilityResponse Milli) × (check repository (full_request p.1.selection)
              ≡ some r)
          × (r.valid ≡ true))
select-AreDistinct_example =
    select-AreDistinct repository candidates [] (nil-AreFaithful repository) chosen.1

select-best_example :
    (c : CandidateBuild Milli) × (others : List (String × CandidateBuild Milli))
    × (chosen.0.selected ≡ ("best_performance", c) ∷ others)
    × (milli_builtins.le (priced whole).performance_score c.performance_score ≡ true)
select-best_example =
    select-best repository candidates [] Milli-IsOrdered (refl, tt) (nil-AreFaithful repository)
      chosen.1 (priced whole) (inl refl) accepted

abbrev request : BuildGenerateRequest Milli
request = record {
  budget_usd = 2000000;
  purpose = "gaming";
  resolution = "1440p";
  preferences = preferences;
  max_candidates_per_type = 80;
}

abbrev evaluated : BuildPreferences Milli → Parts Milli → CandidateBuild Milli
evaluated wishes parts = get_or (evaluate numpy wishes 2000000 parts) (priced parts)

generated :
    (response : BuildGenerateResponse Milli) × (generate numpy repository evaluated request
      ≡ some response)
unfolding generate check power_check physical_collision_check detect_collisions volumes_of ids
    volume_from_component lookup selection_of part same_kind search visit record_build is_full
    is_good goes_on filtered_candidates cached with_part kind_index cost partial_is_possible number
    first_known_number remaining_cost_floor floor_at value_eq split_spec_value cheapest property
    property_or_empty float_of scalar_str str usb_possible pcie_possible required_cooling_headroom
    psu_possible required_lanes split_values header_supply header_requirements requested_gbps
    total_power_draw ai_repo.Compatibility.fit_checks ai_repo.Compatibility.Fit.socket_check
    ai_repo.Compatibility.component ai_repo.Compatibility.Fit.ram_check
    ai_repo.Compatibility.Fit.case_fit_checks ai_repo.Compatibility.Fit.cooler_check
    ai_repo.Compatibility.bus_checks ai_repo.Compatibility.Bus.pcie_lane_check
    ai_repo.Compatibility.Bus.usb_topology_check ai_repo.Compatibility.Bus.headers_suffice
    ai_repo.Domain.value_truthy ai_repo.Geometry.collisions_among ai_repo.Solver.Score.load_catalog
    ai_repo.Solver.Select.sorted_desc ai_repo.Solver.Score.candidate_priority
    ai_repo.Solver.Score.raw_priority ai_repo.Solver.Score.noise_penalty
    ai_repo.Solver.Score.noise_penalty_of ai_repo.Solver.Score.efficiency_bonus
    ai_repo.Solver.Score.psu_efficiency_bonus evaluate choose_builds select_multi_solution
    ai_repo.Solver.Select.remembered ai_repo.Solver.Select.select_from
    ai_repo.Solver.Select.first_unique_graph_valid ai_repo.Solver.Select.graph_valid
    ai_repo.Solver.Select.verdict ai_repo.Solver.Select.keep ai_repo.Solver.Select.is_used
    ai_repo.Solver.Select.same_signature ai_repo.Solver.Select.same_id normalized_preferences
    ai_repo.Solver.Generate.offer ai_repo.Solver.Generate.offer_closest
    ai_repo.Solver.Generate.offer_valid ai_repo.Solver.Generate.sorted_nearest
    ai_repo.Solver.Generate.to_generated_build ai_repo.Solver.Generate.to_generated_builds
    ai_repo.Compatibility.respond ai_repo.Compatibility.missing_ids
generated = (_, refl)

generate-IsHonest_example :
    (wishes : BuildPreferences Milli) × (normalized_preferences request ≡ some wishes)
    × IsHonest
        (problem_of numpy repository evaluated request wishes)
        (found (problem_of numpy repository evaluated request wishes) solver_order)
        generated.0
generate-IsHonest_example = generate-IsHonest numpy repository evaluated request generated.1

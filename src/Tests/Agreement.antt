-- ===== src/Tests/Agreement.antt =====
-- The solver's tests against the engine's constraints (backend/app/services/build_solver.py): a concrete
-- run.
use ai_repo.Prelude.{◌≡◌, refl, Option, none, some, true, arith, IfSome, leb}
use ai_repo.Runtime.{Milli, milli_builtins, Milli-IsOrdered}
use ai_repo.Domain.{
  ComponentNode, number, first_known_number, lookup, property, property_or_empty, float_of,
  scalar_str, str, value_eq, split_spec_value,
}
use ai_repo.Solver.Parts.{part, same_kind, kind_index}
use ai_repo.Solver.Feasible.{
  partial_is_possible, usb_possible, pcie_possible, required_cooling_headroom, psu_possible,
}
use ai_repo.Solver.Feasible.Agrees.{HasNumbers, MeetsConstraints, possible-MeetsConstraints}
use ai_repo.Text.{split_values}
use ai_repo.Compatibility.Power.{total_power_draw}
use ai_repo.Compatibility.Bus.{required_lanes, header_supply, header_requirements, requested_gbps}
use ai_repo.Tests.Builds.{preferences, whole}

every_number : (o : Option Milli) → IfSome o (λ x. leb x x ≡ true)
every_number none = tt
every_number (some x) = ground arith

node-HasNumbers : (n : ComponentNode Milli) → HasNumbers n
node-HasNumbers n group key = every_number (number n group key none)

option-HasNumbers : (o : Option (ComponentNode Milli)) → IfSome o HasNumbers
option-HasNumbers none = tt
option-HasNumbers (some n) = node-HasNumbers n

whole_possible : partial_is_possible whole preferences ≡ true
unfolding part same_kind kind_index partial_is_possible number first_known_number value_eq
    split_spec_value lookup property property_or_empty float_of scalar_str str usb_possible
    pcie_possible required_cooling_headroom psu_possible required_lanes split_values header_supply
    header_requirements requested_gbps total_power_draw
whole_possible = refl

possible-MeetsConstraints_example : MeetsConstraints whole
possible-MeetsConstraints_example =
    possible-MeetsConstraints Milli-IsOrdered refl whole preferences
      (λ kind. option-HasNumbers (part kind whole)) whole_possible

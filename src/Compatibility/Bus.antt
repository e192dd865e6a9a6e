-- ===== src/Compatibility/Bus.antt =====
-- `_pcie_lane_check` and `_usb_topology_check` of backend/app/services/compatibility.py.
use ai_repo.Prelude.{Option, none, some, Bool, ◌&&◌, List, [], ◌∷◌, map, if◌then◌else◌, somes}
use ai_repo.Runtime.{Builtins, zero_float, truthy, max_of, min_of, sum_from}
use ai_repo.Domain.{ComponentNode, Group, number}
use ai_repo.Compatibility.Verdict.{
  Check, Status, Severity, critical_check, unknown_check, number_or_zero, count_or_zero,
}

-- The two dictionaries of `_usb_topology_check`: front-panel ports, and headers of the board.
pub record UsbCounts (F : Type 0) : Type 0 where
  pub usb_20 : F
  pub usb_32_gen1 : F
  pub usb_32_gen2x2 : F

module _ {F : Type 0} ⦃py : Builtins F⦄ where
  -- `sum(…)` over the devices that are selected
  unfoldable pub required_lanes : Option (ComponentNode F) → Option (ComponentNode F) → F
  required_lanes gpu storage = sum_from zero_float (
      map (λ c. number_or_zero c Group.bandwidth "pcie_lanes_required")
        (somes (gpu ∷ storage ∷ [])))

  -- `max(values or [0])`
  unfoldable pub max_or_zero : List F → F
  max_or_zero [] = zero_float
  max_or_zero (x ∷ []) = x
  max_or_zero (x ∷ y ∷ xs) = max_or_zero (max_of x y ∷ xs)

  unfoldable pub required_generation : Option (ComponentNode F) → Option (ComponentNode F) → F
  unfolding max_or_zero
  required_generation gpu storage = max_or_zero (
      map (λ c. count_or_zero c Group.bandwidth "pcie_generation_required")
        (somes (gpu ∷ storage ∷ [])))

  -- `cpu_gen and board_gen and required_gen`, then the comparison
  unfoldable pub generation_check : Option F → Option F → F → List Check
  generation_check none board_gen required = []
  generation_check (some cpu_gen) none required = []
  generation_check (some cpu_gen) (some board_gen) required =
      if truthy cpu_gen && truthy board_gen && truthy required
      then record {
        id = "pcie:generation";
        label = "PCIe generation supports selected devices";
        status = if py.le required (min_of cpu_gen board_gen) then Status.pass else Status.warning;
        severity = Severity.warning;
      }
        ∷ []
      else []

  -- The part of `_pcie_lane_check` after its guards on `cpu_lanes`.
  unfoldable pub lane_budget_checks :
      F → (cpu board : ComponentNode F) → (gpu storage : Option (ComponentNode F)) → List Check
  unfolding generation_check
  lane_budget_checks cpu_lanes cpu board gpu storage =
      critical_check "pcie:lane_budget" "PCIe lanes fit CPU plus chipset budget" (
        py.le (required_lanes gpu storage)
          (py.add cpu_lanes (number_or_zero board Group.bandwidth "chipset_pcie_lanes")))
      ∷ generation_check (number cpu Group.bandwidth "pcie_generation" none)
          (number board Group.bandwidth "pcie_generation" none) (required_generation gpu storage)

  unfoldable pub pcie_lane_check : (cpu board gpu storage : Option (ComponentNode F)) → List Check
  unfolding lane_budget_checks
  pcie_lane_check none board gpu storage = []
  pcie_lane_check (some cpu) none gpu storage = []
  pcie_lane_check (some cpu) (some board) gpu storage =
      elim (number cpu Group.bandwidth "pcie_lanes" none) [
        | none ↦ unknown_check "pcie:lane_budget" "PCIe lane budget" ∷ []
        | some cpu_lanes ↦ lane_budget_checks cpu_lanes cpu board gpu storage
      ]

  unfoldable pub header_requirements : ComponentNode F → UsbCounts F
  header_requirements case = record {
    usb_20 = count_or_zero case Group.bandwidth "front_usb_20_ports";
    usb_32_gen1 = count_or_zero case Group.bandwidth "front_usb_32_gen1_ports";
    usb_32_gen2x2 = count_or_zero case Group.bandwidth "front_usb_32_gen2x2_ports";
  }

  unfoldable pub header_supply : ComponentNode F → UsbCounts F
  header_supply board = record {
    usb_20 = count_or_zero board Group.bandwidth "usb_20_headers";
    usb_32_gen1 = count_or_zero board Group.bandwidth "usb_32_gen1_headers";
    usb_32_gen2x2 = count_or_zero board Group.bandwidth "usb_32_gen2x2_headers";
  }

  unfoldable pub headers_suffice : UsbCounts F → UsbCounts F → Bool
  headers_suffice required available =
      py.le required.usb_20 available.usb_20
      && py.le required.usb_32_gen1 available.usb_32_gen1
      && py.le required.usb_32_gen2x2 available.usb_32_gen2x2

  -- `usb_20 * 0.48 + usb_32_gen1 * 5 + usb_32_gen2x2 * 20`
  unfoldable pub requested_gbps : UsbCounts F → F
  requested_gbps required =
      py.add
        (py.add (py.mul required.usb_20 (py.literal 48 2))
          (py.mul required.usb_32_gen1 (py.literal 5 0)))
        (py.mul required.usb_32_gen2x2 (py.literal 20 0))

  unfoldable pub bandwidth_check : Option F → UsbCounts F → Check
  bandwidth_check none required = unknown_check "usb:bandwidth" "USB controller bandwidth"
  bandwidth_check (some budget) required =
      critical_check "usb:bandwidth" "USB front-panel bandwidth fits controller topology"
        (py.le (requested_gbps required) budget)

  unfoldable pub usb_topology_check :
      Option (ComponentNode F) → Option (ComponentNode F) → List Check
  unfolding bandwidth_check
  usb_topology_check none case = []
  usb_topology_check (some board) none = []
  usb_topology_check (some board) (some case) =
      critical_check "usb:headers" "Case USB front-panel headers are available"
        (headers_suffice (header_requirements case) (header_supply board))
      ∷ bandwidth_check (number board Group.bandwidth "usb_controller_gbps" none)
          (header_requirements case)
      ∷ []

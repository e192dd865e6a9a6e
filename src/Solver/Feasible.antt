-- ===== src/Solver/Feasible.antt =====
-- `_partial_is_possible` of backend/app/services/build_solver.py and the tests that it makes: the
-- solver's own copy of the hard constraints, on the properties of the nodes alone.
pub mod Agrees
use ai_repo.Prelude.{
  String, Option, none, some, Bool, true, false, not, ◌&&◌, ◌||◌, map, elem, if◌then◌else◌,
}
use ai_repo.Runtime.{Builtins}
use ai_repo.Domain.{
  ComponentKind, ComponentNode, Group, number, property, property_or_empty, str, value_eq,
  split_spec_value, first_known_number, psu_wattage_fields,
}
use ai_repo.Compatibility.Verdict.{number_or_zero}
use ai_repo.Compatibility.Power.{total_power_draw}
use ai_repo.Compatibility.Bus.{
  UsbCounts, header_requirements, header_supply, requested_gbps, required_lanes,
}
use ai_repo.Solver.Parts.{BuildPreferences, NoisePreference, Parts, part}

module _ {F : Type 0} ⦃py : Builtins F⦄ where
  -- `any(available[key] < value for key, value in required.items())`
  abbrev pub headers_short : UsbCounts F → UsbCounts F → Bool
  headers_short required available =
      py.lt available.usb_20 required.usb_20
      || py.lt available.usb_32_gen1 required.usb_32_gen1
      || py.lt available.usb_32_gen2x2 required.usb_32_gen2x2

  unfoldable pub usb_possible : ComponentNode F → ComponentNode F → Bool
  usb_possible board case =
      if headers_short (header_requirements case) (header_supply board)
      then false
      else elim (number board Group.bandwidth "usb_controller_gbps" none) [
        | none ↦ true
        | some controller ↦ py.le (requested_gbps (header_requirements case)) controller
      ]

  unfoldable pub pcie_possible :
      (cpu board : ComponentNode F) → (gpu storage : Option (ComponentNode F)) → Bool
  pcie_possible cpu board gpu storage = elim (number cpu Group.bandwidth "pcie_lanes" none) [
    | none ↦ true
    | some cpu_lanes ↦
        py.le (required_lanes gpu storage)
          (py.add cpu_lanes (number_or_zero board Group.bandwidth "chipset_pcie_lanes"))
  ]

  unfoldable pub required_cooling_headroom : NoisePreference → F
  required_cooling_headroom NoisePreference.quiet = py.literal 13 1
  required_cooling_headroom NoisePreference.performance = py.literal 11 1
  required_cooling_headroom NoisePreference.balanced = py.literal 115 2

  unfoldable pub psu_possible : Parts F → ComponentNode F → Bool
  psu_possible partial psu = elim (first_known_number psu psu_wattage_fields) [
    | none ↦ true
    | some wattage ↦
        py.le
          (py.mul
            (py.add (total_power_draw (map (λ (p : ComponentKind × ComponentNode F). p.1) partial))
              (py.literal 60 0))
            (py.literal 135 2))
          wattage
  ]

  abbrev pub if_one : Option (ComponentNode F) → (ComponentNode F → Bool) → Bool
  if_one none test = true
  if_one (some a) test = test a

  -- A test on two parts, which passes while one of them is not chosen.
  abbrev pub if_both :
      Option (ComponentNode F)
      → Option (ComponentNode F)
      → (ComponentNode F → ComponentNode F → Bool)
      → Bool
  if_both none b test = true
  if_both (some a) none test = true
  if_both (some a) (some b) test = test a b

  -- `size is not None and room is not None and size > room` is false
  abbrev pub size_possible : Option F → Option F → Bool
  size_possible none room = true
  size_possible (some size) none = true
  size_possible (some size) (some room) = not (py.lt room size)

  abbrev pub same_property : Group → String → ComponentNode F → ComponentNode F → Bool
  same_property group key a b = value_eq (property a group key) (property b group key)

  abbrev pub form_factor_possible : ComponentNode F → ComponentNode F → Bool
  form_factor_possible board case =
      elem (str (property board Group.specs "form_factor"))
        (split_spec_value (property_or_empty case Group.specs "supported_form_factors"))

  abbrev pub gpu_possible : ComponentNode F → ComponentNode F → Bool
  gpu_possible gpu case =
      size_possible (number gpu Group.dimensions "length_mm" none)
        (number case Group.dimensions "gpu_clearance_mm" none)

  abbrev pub cooler_height_possible : ComponentNode F → ComponentNode F → Bool
  cooler_height_possible cooler case =
      size_possible (number cooler Group.dimensions "height_mm" none)
        (number case Group.dimensions "cooler_clearance_mm" none)

  abbrev pub capacity_possible : F → Option F → Option F → Bool
  capacity_possible headroom none tdp = true
  capacity_possible headroom (some capacity) none = true
  capacity_possible headroom (some capacity) (some tdp) = not (py.lt capacity (py.mul tdp headroom))

  abbrev pub cooling_possible : NoisePreference → ComponentNode F → ComponentNode F → Bool
  cooling_possible noise cooler cpu =
      capacity_possible (required_cooling_headroom noise)
        (number cooler Group.specs "cooling_capacity_w" none) (number cpu Group.power "tdp_w" none)

  -- The guards in their order; each `return False` makes the conjunction false.
  unfoldable pub partial_is_possible : Parts F → BuildPreferences F → Bool
  partial_is_possible partial preferences =
      let cpu = part ComponentKind.cpu partial in
      let board = part ComponentKind.motherboard partial in
      let ram = part ComponentKind.ram partial in
      let gpu = part ComponentKind.gpu partial in
      let storage = part ComponentKind.storage partial in
      let cooler = part ComponentKind.cooler partial in
      let case = part ComponentKind.case partial in
      let psu = part ComponentKind.psu partial in
      if_both cpu board (same_property Group.specs "socket")
      && if_both ram board (same_property Group.specs "memory_type")
      && if_both board case form_factor_possible
      && if_both gpu case gpu_possible
      && if_both cooler case cooler_height_possible
      && if_both cooler cpu (cooling_possible preferences.noise_preference)
      && if_both board case usb_possible
      && if_both cpu board (λ c b. pcie_possible c b gpu storage)
      && if_one psu (psu_possible partial)

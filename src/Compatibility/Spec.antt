-- ===== src/Compatibility/Spec.antt =====
-- What a selection must satisfy to be called valid by backend/app/services/compatibility.py, said
-- about the parts and the graph alone. A fact that the graph does not know rules nothing out.
use ai_repo.Prelude.{◌≡◌, ◌≢◌, Option, none, true, [], In, IfSome}
use ai_repo.Runtime.{Builtins}
use ai_repo.Domain.{
  ComponentNode, Group, number, property_or_empty, str, split_spec_value, first_known_number,
  psu_wattage_fields,
}
use ai_repo.Compatibility.Verdict.{number_or_zero}
use ai_repo.Compatibility.Bus.{required_lanes, header_requirements, header_supply, requested_gbps}

-- A statement about two optional values, if both are there.
abbrev pub IfBoth : {A B : Type 0} → Option A → Option B → (A → B → Type 0) → Type 0
IfBoth a b P = IfSome a (λ x. IfSome b (P x))

module _ {F : Type 0} ⦃py : Builtins F⦄ where
  -- One known size is at most the other.
  abbrev pub FitsWithin : Option F → Option F → Type 0
  FitsWithin size room = IfBoth size room λ s r. py.le s r ≡ true

  abbrev pub FormFactorFits : (board case : ComponentNode F) → Type 0
  FormFactorFits board case =
      let supported =
        split_spec_value (property_or_empty case Group.specs "supported_form_factors") in
      let form_factor = str (property_or_empty board Group.specs "form_factor") in
      supported ≢ [] → form_factor ≢ "" → In form_factor supported

  abbrev pub CoolerCopes : (cooler cpu : ComponentNode F) → Type 0
  CoolerCopes cooler cpu =
      IfBoth (number cooler Group.specs "cooling_capacity_w" none)
        (number cpu Group.power "tdp_w" none)
        λ capacity tdp. py.le (py.mul tdp (py.literal 115 2)) capacity ≡ true

  abbrev pub LanesSuffice :
      (cpu board : ComponentNode F) → (gpu storage : Option (ComponentNode F)) → Type 0
  LanesSuffice cpu board gpu storage =
      IfSome (number cpu Group.bandwidth "pcie_lanes" none) λ lanes.
        py.le (required_lanes gpu storage)
          (py.add lanes (number_or_zero board Group.bandwidth "chipset_pcie_lanes"))
        ≡ true

  -- Each kind of front-panel port has its headers, and the controller carries them all.
  pub record UsbSuffices (board case : ComponentNode F) : Type 0 where
    pub usb_20 : py.le (header_requirements case).usb_20 (header_supply board).usb_20 ≡ true
    pub usb_32_gen1 :
        py.le (header_requirements case).usb_32_gen1 (header_supply board).usb_32_gen1 ≡ true
    pub usb_32_gen2x2 :
        py.le (header_requirements case).usb_32_gen2x2 (header_supply board).usb_32_gen2x2 ≡ true
    pub controller :
        IfSome
          (number board Group.bandwidth "usb_controller_gbps" none)
          λ budget. py.le (requested_gbps (header_requirements case)) budget ≡ true

  abbrev pub GpuFits : (gpu case : ComponentNode F) → Type 0
  GpuFits gpu case =
      FitsWithin (number gpu Group.dimensions "length_mm" none)
        (number case Group.dimensions "gpu_clearance_mm" none)

  abbrev pub CoolerFits : (cooler case : ComponentNode F) → Type 0
  CoolerFits cooler case =
      FitsWithin (number cooler Group.dimensions "height_mm" none)
        (number case Group.dimensions "cooler_clearance_mm" none)

  -- The wattage, where it is known, covers the requirement.
  abbrev pub WattageCovers : F → ComponentNode F → Type 0
  WattageCovers required psu =
      IfSome (first_known_number psu psu_wattage_fields) λ wattage. py.le required wattage ≡ true

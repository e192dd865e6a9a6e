-- ===== src/Compatibility/Fit.antt =====
-- `_socket_check`, `_ram_check`, `_case_fit_checks` and `_cooler_check` of
-- backend/app/services/compatibility.py: do two selected parts fit one another.
use ai_repo.Prelude.{
  String, Option, none, some, Bool, not, ◌&&◌, List, [], ◌∷◌, ◌++◌, if◌then◌else◌, elem, is_empty,
}
use ai_repo.Runtime.{Builtins}
use ai_repo.Text.{non_empty}
use ai_repo.Domain.{ComponentNode, Group, number, property_or_empty, str, split_spec_value}
use ai_repo.Compatibility.Verdict.{Check, Status, Severity, critical_check, unknown_check}
use ai_repo.Repository.{Repository}

abbrev pub qvl_check : Bool → Bool → Check
qvl_check qvl_ok qvl_required = record {
  id = "ram:motherboard:qvl";
  label = "RAM kit is QVL validated";
  status = if qvl_ok then Status.pass else if qvl_required then Status.fail else Status.warning;
  severity = if qvl_required then Severity.critical else Severity.warning;
}

module _ {F : Type 0} ⦃py : Builtins F⦄ where
  unfoldable pub socket_check :
      Repository F → Option (ComponentNode F) → Option (ComponentNode F) → List Check
  socket_check repository none board = []
  socket_check repository (some cpu) none = []
  socket_check repository (some cpu) (some board) =
      critical_check "cpu:motherboard:socket" "CPU socket matches motherboard socket"
        (repository.socket_match cpu.id board.id)
      ∷ []

  unfoldable pub ram_check :
      Repository F → Option (ComponentNode F) → Option (ComponentNode F) → Bool → List Check
  ram_check repository none board qvl_required = []
  ram_check repository (some ram) none qvl_required = []
  ram_check repository (some ram) (some board) qvl_required =
      critical_check "ram:motherboard:memory_type" "RAM memory type is supported"
        (repository.memory_type_supported ram.id board.id)
      ∷ qvl_check (repository.qvl_validated ram.id board.id) qvl_required
      ∷ []

  unfoldable pub form_factor_check :
      Option (ComponentNode F) → Option (ComponentNode F) → List Check
  form_factor_check none case = []
  form_factor_check (some board) none = []
  form_factor_check (some board) (some case) =
      let supported =
        split_spec_value (property_or_empty case Group.specs "supported_form_factors") in
      let form_factor = str (property_or_empty board Group.specs "form_factor") in
      if not (is_empty supported) && non_empty form_factor
      then critical_check "motherboard:case:form_factor" "Motherboard form factor fits case"
          (elem form_factor supported)
        ∷ []
      else unknown_check "motherboard:case:form_factor" "Motherboard form factor fit" ∷ []

  -- The shape of the two clearance checks: unknown, or a comparison.
  unfoldable pub clearance_check : String → String → String → Option F → Option F → Check
  clearance_check id label unknown_label none clearance = unknown_check id unknown_label
  clearance_check id label unknown_label (some size) none = unknown_check id unknown_label
  clearance_check id label unknown_label (some size) (some clearance) =
      critical_check id label (py.le size clearance)

  unfoldable pub gpu_length_check : Option (ComponentNode F) → Option (ComponentNode F) → List Check
  gpu_length_check none case = []
  gpu_length_check (some gpu) none = []
  gpu_length_check (some gpu) (some case) =
      clearance_check "gpu:case:length" "GPU length fits case clearance" "GPU length clearance"
        (number gpu Group.dimensions "length_mm" none)
        (number case Group.dimensions "gpu_clearance_mm" none)
      ∷ []

  unfoldable pub cooler_height_check :
      Option (ComponentNode F) → Option (ComponentNode F) → List Check
  cooler_height_check none case = []
  cooler_height_check (some cooler) none = []
  cooler_height_check (some cooler) (some case) =
      clearance_check "cooler:case:height" "Cooler height fits case clearance"
        "Cooler height clearance" (number cooler Group.dimensions "height_mm" none)
        (number case Group.dimensions "cooler_clearance_mm" none)
      ∷ []

  unfoldable pub case_fit_checks : (gpu board case cooler : Option (ComponentNode F)) → List Check
  unfolding form_factor_check gpu_length_check cooler_height_check clearance_check
  case_fit_checks gpu board case cooler =
      form_factor_check board case ++ (gpu_length_check gpu case ++ cooler_height_check cooler case)

  -- `cooling_capacity >= cpu_tdp * 1.15`
  unfoldable pub thermal_check : Option F → Option F → Check
  thermal_check none tdp = unknown_check "cooler:cpu:thermal" "Cooler thermal capacity"
  thermal_check (some capacity) none = unknown_check "cooler:cpu:thermal" "Cooler thermal capacity"
  thermal_check (some capacity) (some tdp) =
      critical_check "cooler:cpu:thermal" "Cooler thermal headroom"
        (py.le (py.mul tdp (py.literal 115 2)) capacity)

  unfoldable pub cooler_check :
      Repository F → Option (ComponentNode F) → Option (ComponentNode F) → List Check
  unfolding thermal_check
  cooler_check repository none cpu = []
  cooler_check repository (some cooler) none = []
  cooler_check repository (some cooler) (some cpu) =
      critical_check "cooler:cpu:socket" "Cooler supports CPU socket"
        (repository.cooler_socket_support cooler.id cpu.id)
      ∷ thermal_check (number cooler Group.specs "cooling_capacity_w" none)
          (number cpu Group.power "tdp_w" none)
      ∷ []

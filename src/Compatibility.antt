-- ===== src/Compatibility.antt =====
-- backend/app/services/compatibility.py: `CompatibilityEngine`. A method that appends to the shared
-- list of checks returns what it appends; the texts `details` and the dictionaries `evidence`, which
-- no code reads, are left out of a check.
pub mod Verdict
pub mod Fit
pub mod Power
pub mod Bus
pub mod Space
pub mod Spec
pub mod Sound
use ai_repo.Prelude.{
  ℕ, ◌+◌, ◌-◌, String, ◌≡◌, Option, none, some, Bool, true, false, not, ◌&&◌, List, [], ◌∷◌, ◌++◌,
  map, if◌then◌else◌, length, any, filter, is_empty, get_or, is_some, eqb, Raises, ◌>>=◌,
}
use ai_repo.Runtime.{Builtins}
use ai_repo.Domain.{ComponentNode, SelectedComponents, ids, lookup}
use ai_repo.Repository.{Repository}
use ai_repo.Text.{◌⧺◌}
use Verdict.{Check, Status, Severity, missing_check, is_fail}
use Fit.{socket_check, ram_check, case_fit_checks, cooler_check}
use Power.{power_check}
use Bus.{pcie_lane_check, usb_topology_check}
use Space.{physical_collision_check}

pub data State : Type 0 where
  partial valid_configuration invalid_configuration : State

pub record CompatibilityRequest : Type 0 where
  pub selection : SelectedComponents
  pub qvl_required : Bool

pub record CompatibilityResponse (F : Type 0) : Type 0 where
  pub valid : Bool
  pub state : State
  pub checks : List Check
  pub total_power_draw_w : F
  pub required_psu_w : F
  pub selected_component_count : ℕ
  pub missing_component_ids : List String

abbrev pub empty_selection_check : Check
empty_selection_check = record {
  id = "selection:empty";
  label = "Selection has graph-backed components";
  status = Status.unknown;
  severity = Severity.info;
}

-- `checks`, or the one check for an empty selection
abbrev pub or_empty_selection : List Check → List Check
or_empty_selection [] = empty_selection_check ∷ []
or_empty_selection (c ∷ checks) = c ∷ checks

module _ {F : Type 0} where
  -- `components.get(id or "")`
  unfoldable pub component :
      List (String × ComponentNode F) → Option String → Option (ComponentNode F)
  component components id = lookup (get_or id "") components

  unfoldable pub missing_ids : List (String × ComponentNode F) → List String → List String
  missing_ids components = filter (λ id. not (is_some (lookup id components)))

  abbrev pub nodes : List (String × ComponentNode F) → List (ComponentNode F)
  nodes = map (λ (e : String × ComponentNode F). e.1)

  -- The end of `check`: the verdict on all checks.
  unfoldable pub respond :
      (checks : List Check) (draw required : F) (component_ids missing : List String)
      → CompatibilityResponse F
  respond checks draw required component_ids missing =
      let selected = length component_ids - length missing in
      let has_failure = any is_fail checks in
      record {
        valid = not has_failure;
        state =
            if has_failure
            then State.invalid_configuration
            else if eqb selected 8 && is_empty missing
            then State.valid_configuration
            else State.partial;
        checks = or_empty_selection checks;
        total_power_draw_w = draw;
        required_psu_w = required;
        selected_component_count = selected;
        missing_component_ids = missing;
      }

module _ {F : Type 0} ⦃py : Builtins F⦄ where
  -- The checks between the power check and the collision check.
  unfoldable pub bus_checks : CompatibilityRequest → List (String × ComponentNode F) → List Check
  bus_checks request components =
      let s = request.selection in
      let board = component components s.motherboard_id in
      pcie_lane_check (component components s.cpu_id) board (component components s.gpu_id)
        (component components s.storage_id)
      ++ usb_topology_check board (component components s.case_id)

module _ {F : Type 0} ⦃py : Builtins F⦄ (repository : Repository F) where
  -- The checks up to the power check, of the nodes that the selection names.
  unfoldable pub fit_checks : CompatibilityRequest → List (String × ComponentNode F) → List Check
  fit_checks request components =
      let s = request.selection in
      let cpu = component components s.cpu_id in
      let gpu = component components s.gpu_id in
      let board = component components s.motherboard_id in
      let ram = component components s.ram_id in
      let case = component components s.case_id in
      let cooler = component components s.cooler_id in
      socket_check repository cpu board
      ++ (ram_check repository ram board request.qvl_required
          ++ (case_fit_checks gpu board case cooler ++ cooler_check repository cooler cpu))

  unfoldable pub check : CompatibilityRequest → Raises (CompatibilityResponse F)
  unfolding missing_ids respond
  check request =
      let component_ids = ids request.selection in
      let components = repository.components_by_ids component_ids in
      let missing = missing_ids components component_ids in
      power_check (nodes components) (component components request.selection.psu_id) >>= λ power.
      physical_collision_check repository (nodes components) component_ids >>= λ physical. some (
        respond
          (map missing_check missing
            ++ (fit_checks request components
                ++ (power.2 ++ (bus_checks request components ++ physical))))
          power.0 power.1 component_ids missing)

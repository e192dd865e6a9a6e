-- ===== src/Compatibility/Sound.antt =====
-- The verdict of `check` in backend/app/services/compatibility.py against its specification.
mod Parts
mod Space
pub mod States
use mathlib.Core.Path.{subst}
use mathlib.Core.Option.{some-injective}
use ai_repo.Prelude.{
  String, ◌≡◌, ◌≢◌, refl, ◌↔◌, Option, none, some, Bool, true, false, not, List, [], ◌∷◌, ◌++◌,
  arith, any, map, ◌>>=◌, bind-eq-some, bind_assoc, not-eq-true_iff, sym, ◌∙◌, Raises, IfSome,
}
use ai_repo.Runtime.{Builtins}
use ai_repo.Domain.{ComponentNode, ids}
use ai_repo.Repository.{Repository}
use ai_repo.Compatibility.Verdict.{Check, missing_check, is_fail}
use ai_repo.Compatibility.Fit.{socket_check, ram_check, case_fit_checks, cooler_check}
use ai_repo.Compatibility.Power.{power_check, psu_check, total_power_draw, required_wattage}
use ai_repo.Compatibility.Bus.{pcie_lane_check, usb_topology_check}
use ai_repo.Compatibility.Space.{physical_collision_check}
use ai_repo.Compatibility.Spec.{
  IfBoth, FormFactorFits, GpuFits, CoolerFits, CoolerCopes, LanesSuffice, UsbSuffices,
  WattageCovers,
}
use ai_repo.Compatibility.{
  CompatibilityRequest, CompatibilityResponse, component, missing_ids, nodes, fit_checks,
  bus_checks, respond, check,
}
use Parts.{
  Clear, Clear-join, socket_check-Clear_iff, ram_check-Clear_iff, cooler_check-Clear_iff,
  case_fit_checks-Clear_iff, psu_check-Clear_iff, pcie_lane_check-Clear_iff,
  usb_topology_check-Clear_iff,
}
use Space.{SpaceIsFree, physical-Clear_iff}

module _ {F : Type 0} ⦃py : Builtins F⦄ where
  -- What a valid selection promises, of the nodes that the graph returned for it.
  pub record IsCompatible (repository : Repository F) (request : CompatibilityRequest)
      (components : List (String × ComponentNode F)) (required : F) : Type 0 where
    pub known : missing_ids components (ids request.selection) ≡ []
    pub socket :
        IfBoth
          (component components request.selection.cpu_id)
          (component components request.selection.motherboard_id)
          λ c b. repository.socket_match c.id b.id ≡ true
    pub memory :
        IfBoth
          (component components request.selection.ram_id)
          (component components request.selection.motherboard_id)
          λ r b.
            (repository.memory_type_supported r.id b.id ≡ true)
            × (request.qvl_required ≡ true → repository.qvl_validated r.id b.id ≡ true)
    pub form_factor :
        IfBoth
          (component components request.selection.motherboard_id)
          (component components request.selection.case_id)
          FormFactorFits
    pub gpu_length :
        IfBoth
          (component components request.selection.gpu_id)
          (component components request.selection.case_id)
          GpuFits
    pub cooler_height :
        IfBoth
          (component components request.selection.cooler_id)
          (component components request.selection.case_id)
          CoolerFits
    pub cooling :
        IfBoth
          (component components request.selection.cooler_id)
          (component components request.selection.cpu_id)
          λ k c. (repository.cooler_socket_support k.id c.id ≡ true) × CoolerCopes k c
    pub wattage : IfSome (component components request.selection.psu_id) (WattageCovers required)
    pub lanes :
        IfBoth
          (component components request.selection.cpu_id)
          (component components request.selection.motherboard_id)
          λ c b.
            LanesSuffice c b
              (component components request.selection.gpu_id)
              (component components request.selection.storage_id)
    pub usb :
        IfBoth
          (component components request.selection.motherboard_id)
          (component components request.selection.case_id)
          UsbSuffices
    pub space : SpaceIsFree repository (nodes components) (ids request.selection)

missing-Clear_iff : (missing : List String) → Clear (map missing_check missing) ↔ (missing ≡ [])
missing-Clear_iff [] = (λ _. refl, λ _. refl)
missing-Clear_iff (id ∷ missing) = (λ h. cc, λ h. cc)

module _ {F : Type 0} ⦃py : Builtins F⦄ (repository : Repository F)
    (request : CompatibilityRequest) where
  abbrev pub found : List (String × ComponentNode F)
  found = repository.components_by_ids (ids request.selection)

  module _ (required : F) {physical : List Check}
      (located : physical_collision_check repository (nodes found) (ids request.selection)
        ≡ some physical) where
    -- The whole list that `check` judges has no failure exactly when the selection is compatible.
    all_checks-Clear_iff :
        Clear (
          map missing_check (missing_ids found (ids request.selection))
          ++ (fit_checks repository request found
              ++ (psu_check (component found request.selection.psu_id) required
                  ++ (bus_checks request found ++ physical))))
        ↔ IsCompatible repository request found required
    unfolding fit_checks bus_checks
    all_checks-Clear_iff =
        let part = component found in
        let s = request.selection in
        let socket = socket_check repository (part s.cpu_id) (part s.motherboard_id) in
        let ram =
          ram_check repository (part s.ram_id) (part s.motherboard_id) request.qvl_required in
        let case =
          case_fit_checks (part s.gpu_id) (part s.motherboard_id) (part s.case_id)
            (part s.cooler_id) in
        let cooler = cooler_check repository (part s.cooler_id) (part s.cpu_id) in
        let psu = psu_check (part s.psu_id) required in
        let lanes =
          pcie_lane_check (part s.cpu_id) (part s.motherboard_id) (part s.gpu_id)
            (part s.storage_id) in
        let usb = usb_topology_check (part s.motherboard_id) (part s.case_id) in
        let fits =
          Clear-join socket (ram ++ (case ++ cooler))
            (socket_check-Clear_iff repository (part s.cpu_id) (part s.motherboard_id))
            (Clear-join ram (case ++ cooler)
              (ram_check-Clear_iff repository (part s.ram_id) (part s.motherboard_id)
                request.qvl_required)
              (Clear-join case cooler
                (case_fit_checks-Clear_iff (part s.gpu_id) (part s.motherboard_id) (part s.case_id)
                  (part s.cooler_id))
                (cooler_check-Clear_iff repository (part s.cooler_id) (part s.cpu_id)))) in
        let buses =
          Clear-join (lanes ++ usb) physical
            (Clear-join lanes usb
              (pcie_lane_check-Clear_iff (part s.cpu_id) (part s.motherboard_id) (part s.gpu_id)
                (part s.storage_id))
              (usb_topology_check-Clear_iff (part s.motherboard_id) (part s.case_id)))
            (physical-Clear_iff repository (nodes found) (ids s) {checks = physical} located) in
        let joined =
          Clear-join (map missing_check (missing_ids found (ids s)))
            ((socket ++ (ram ++ (case ++ cooler))) ++ (psu ++ ((lanes ++ usb) ++ physical)))
            (missing-Clear_iff (missing_ids found (ids s)))
            (Clear-join (socket ++ (ram ++ (case ++ cooler))) (psu ++ ((lanes ++ usb) ++ physical))
              fits
              (Clear-join psu ((lanes ++ usb) ++ physical)
                (psu_check-Clear_iff (part s.psu_id) required) buses)) in
        (
          λ h.
              let j = joined.0 h in
              record {
                known = j.0;
                socket = j.1.0.0;
                memory = j.1.0.1.0;
                form_factor = j.1.0.1.1.0.0;
                gpu_length = j.1.0.1.1.0.1;
                cooler_height = j.1.0.1.1.0.2;
                cooling = j.1.0.1.1.1;
                wattage = j.1.1.0;
                lanes = j.1.1.1.0.0;
                usb = j.1.1.1.0.1;
                space = j.1.1.1.1;
              },
          λ v. joined.1 (
            v.known,
            (
              (v.socket, (v.memory, ((v.form_factor, v.gpu_length, v.cooler_height), v.cooling))),
              (v.wattage, ((v.lanes, v.usb), v.space)),
            ),
          ),
        )

  abbrev checks_of : List Check → List Check → List Check
  checks_of psu physical =
      map missing_check (missing_ids found (ids request.selection))
      ++ (fit_checks repository request found ++ (psu ++ (bus_checks request found ++ physical)))

  abbrev answer : F → List Check → F → List Check → CompatibilityResponse F
  answer draw psu required physical =
      respond (checks_of psu physical) draw required (ids request.selection)
        (missing_ids found (ids request.selection))

  -- What a returned answer was made from.
  pub record Ran (response : CompatibilityResponse F) : Type 0 where
    pub required : F
    pub physical : List Check
    pub located :
        physical_collision_check repository (nodes found) (ids request.selection) ≡ some physical
    pub answered :
        answer
          (total_power_draw (nodes found))
          (psu_check (component found request.selection.psu_id) required)
          required
          physical
        ≡ response

  pub check-Ran :
      {response : CompatibilityResponse F} → check repository request ≡ some response → Ran response
  unfolding check power_check
  check-Ran {response} e =
      let draw = total_power_draw (nodes found) in
      let psu = component found request.selection.psu_id in
      let (required, r, e') =
        bind-eq-some (required_wattage draw)
          (λ q.
            physical_collision_check repository (nodes found) (ids request.selection)
            >>= λ physical. some (answer draw (psu_check psu q) q physical))
          (sym (bind_assoc (required_wattage draw) (λ q. some (draw, q, psu_check psu q)) _) ∙ e) in
      let (physical, located, e'') =
        bind-eq-some (physical_collision_check repository (nodes found) (ids request.selection))
          (λ physical. some (answer draw (psu_check psu required) required physical)) e' in
      record {
        required = required;
        physical = physical;
        located = located;
        answered = some-injective _ _ e'';
      }

  -- Where `check` returns, it calls the selection valid exactly when the parts that the graph knows
  -- meet every constraint: all are in the graph, sockets, memory, form factor, clearances, cooling,
  -- wattage, lanes and USB fit, and nothing is in the way of anything else.
  pub check-valid_iff :
      {response : CompatibilityResponse F}
      → check repository request ≡ some response
      → (response.valid ≡ true) ↔ IsCompatible repository request found response.required_psu_w
  unfolding respond
  check-valid_iff {response} e =
      let ran = check-Ran e in
      let clear = all_checks-Clear_iff ran.required {physical = ran.physical} ran.located in
      let checks =
        checks_of (psu_check (component found request.selection.psu_id) ran.required)
          ran.physical in
      rw (← ran.answered) (not-eq-true_iff (any is_fail checks) clear)

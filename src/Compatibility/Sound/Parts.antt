-- ===== src/Compatibility/Sound/Parts.antt =====
-- When a check method of backend/app/services/compatibility.py appends no failure.
use text.Mathlib.TextLemmas.{cons≢nil}
use ai_repo.Prelude.{
  String, ◌≡◌, ◌≢◌, refl, ◌↔◌, Option, none, some, Bool, true, false, List, [], ◌∷◌, ◌++◌, arith,
  any, IfSome, In, elem, elem_iff, any-append, is_empty, if◌then◌else◌, not, ◌&&◌,
}
use ai_repo.Runtime.{Builtins}
use ai_repo.Text.{non_empty}
use ai_repo.Domain.{ComponentNode, Group, number, str, split_spec_value, property_or_empty}
use ai_repo.Compatibility.Bus.{
  pcie_lane_check, usb_topology_check, generation_check, lane_budget_checks, headers_suffice,
  bandwidth_check, required_generation,
}
use ai_repo.Repository.{Repository}
use ai_repo.Compatibility.Verdict.{Check, is_fail, critical_check, unknown_check}
use ai_repo.Compatibility.Fit.{
  socket_check, ram_check, case_fit_checks, cooler_check, form_factor_check, gpu_length_check,
  cooler_height_check, thermal_check, clearance_check,
}
use ai_repo.Compatibility.Power.{psu_check}
use ai_repo.Compatibility.Spec.{
  IfBoth, FormFactorFits, GpuFits, CoolerFits, CoolerCopes, LanesSuffice, UsbSuffices,
  WattageCovers,
}

-- Nothing in the list is a failure.
abbrev pub Clear : List Check → Type 0
Clear checks = any is_fail checks ≡ false

pub Clear-append : (xs ys : List Check) → Clear (xs ++ ys) ↔ (Clear xs × Clear ys)
Clear-append xs ys = ground (arith, any-append is_fail xs ys)

-- Two lists of checks, each with what its clearance means.
pub Clear-join :
    {P Q : Type 0} (xs ys : List Check) → Clear xs ↔ P → Clear ys ↔ Q → Clear (xs ++ ys) ↔ (P × Q)
Clear-join xs ys p q =
    let both = Clear-append xs ys in
    (λ h. (p.0 (both.0 h).0, q.0 (both.0 h).1), λ h. both.1 (p.1 h.0, q.1 h.1))

critical_check-Clear_iff :
    (id label : String) (ok : Bool) → Clear (critical_check id label ok ∷ []) ↔ (ok ≡ true)
critical_check-Clear_iff id label ok = ground arith

form_factor_lem :
    (s : String) (l : List String)
    → Clear (
        if not (is_empty l) && non_empty s
        then critical_check "motherboard:case:form_factor" "Motherboard form factor fits case"
            (elem s l)
          ∷ []
        else unknown_check "motherboard:case:form_factor" "Motherboard form factor fit" ∷ [])
      ↔ (l ≢ [] → s ≢ "" → In s l)
form_factor_lem s [] = (λ _ h. absurd (h refl), λ _. refl)
form_factor_lem String.[] (t ∷ l) = (λ _ _ h. absurd (h refl), λ _. refl)
form_factor_lem (String.◌∷◌ c s) (t ∷ l) =
    let member = elem_iff (String.◌∷◌ c s) (t ∷ l) in
    let verdict =
      critical_check-Clear_iff "motherboard:case:form_factor" "Motherboard form factor fits case"
        (elem (String.◌∷◌ c s) (t ∷ l)) in
    (λ h _ _. member.0 (verdict.0 h), λ h. verdict.1 (member.1 (h (λ e. cc e) (λ e. cons≢nil e))))

module _ {F : Type 0} ⦃py : Builtins F⦄ (repository : Repository F) where
  pub socket_check-Clear_iff :
      (cpu board : Option (ComponentNode F))
      → Clear (socket_check repository cpu board)
        ↔ IfBoth cpu board (λ c b. repository.socket_match c.id b.id ≡ true)
  unfolding socket_check
  socket_check-Clear_iff none board = (λ _. tt, λ _. refl)
  socket_check-Clear_iff (some c) none = (λ _. tt, λ _. refl)
  socket_check-Clear_iff (some c) (some b) = ground arith

  pub ram_check-Clear_iff :
      (ram board : Option (ComponentNode F)) (qvl_required : Bool)
      → Clear (ram_check repository ram board qvl_required)
        ↔ IfBoth ram board (λ r b.
          (repository.memory_type_supported r.id b.id ≡ true)
          × (qvl_required ≡ true → repository.qvl_validated r.id b.id ≡ true))
  unfolding ram_check
  ram_check-Clear_iff none board q = (λ _. tt, λ _. refl)
  ram_check-Clear_iff (some c) none q = (λ _. tt, λ _. refl)
  ram_check-Clear_iff (some c) (some b) q = ground arith

  pub cooler_check-Clear_iff :
      (cooler cpu : Option (ComponentNode F))
      → Clear (cooler_check repository cooler cpu)
        ↔ IfBoth cooler cpu
            (λ k c. (repository.cooler_socket_support k.id c.id ≡ true) × CoolerCopes k c)
  unfolding cooler_check thermal_check
  cooler_check-Clear_iff none cpu = (λ _. tt, λ _. refl)
  cooler_check-Clear_iff (some k) none = (λ _. tt, λ _. refl)
  cooler_check-Clear_iff (some k) (some c) = ground arith

module _ {F : Type 0} ⦃py : Builtins F⦄ where
  form_factor_check-Clear_iff :
      (board case : Option (ComponentNode F))
      → Clear (form_factor_check board case) ↔ IfBoth board case FormFactorFits
  unfolding form_factor_check
  form_factor_check-Clear_iff none case = (λ _. tt, λ _. refl)
  form_factor_check-Clear_iff (some b) none = (λ _. tt, λ _. refl)
  form_factor_check-Clear_iff (some b) (some c) =
      form_factor_lem (str (property_or_empty b Group.specs "form_factor"))
        (split_spec_value (property_or_empty c Group.specs "supported_form_factors"))

  gpu_length_check-Clear_iff :
      (gpu case : Option (ComponentNode F))
      → Clear (gpu_length_check gpu case) ↔ IfBoth gpu case GpuFits
  unfolding gpu_length_check clearance_check
  gpu_length_check-Clear_iff none case = (λ _. tt, λ _. refl)
  gpu_length_check-Clear_iff (some b) none = (λ _. tt, λ _. refl)
  gpu_length_check-Clear_iff (some b) (some c) = ground arith

  cooler_height_check-Clear_iff :
      (cooler case : Option (ComponentNode F))
      → Clear (cooler_height_check cooler case) ↔ IfBoth cooler case CoolerFits
  unfolding cooler_height_check clearance_check
  cooler_height_check-Clear_iff none case = (λ _. tt, λ _. refl)
  cooler_height_check-Clear_iff (some b) none = (λ _. tt, λ _. refl)
  cooler_height_check-Clear_iff (some b) (some c) = ground arith

  pub psu_check-Clear_iff :
      (psu : Option (ComponentNode F)) (required : F)
      → Clear (psu_check psu required) ↔ IfSome psu (WattageCovers required)
  unfolding psu_check
  psu_check-Clear_iff none required = (λ _. tt, λ _. refl)
  psu_check-Clear_iff (some p) required = ground arith

  generation_check-Clear : (a b : Option F) (g : F) → Clear (generation_check a b g)
  unfolding generation_check
  generation_check-Clear none b g = refl
  generation_check-Clear (some a) none g = refl
  generation_check-Clear (some a) (some b) g = ground arith

  pub pcie_lane_check-Clear_iff :
      (cpu board gpu storage : Option (ComponentNode F))
      → Clear (pcie_lane_check cpu board gpu storage)
        ↔ IfBoth cpu board (λ c b. LanesSuffice c b gpu storage)
  unfolding pcie_lane_check lane_budget_checks
  pcie_lane_check-Clear_iff none board gpu storage = (λ _. tt, λ _. refl)
  pcie_lane_check-Clear_iff (some c) none gpu storage = (λ _. tt, λ _. refl)
  pcie_lane_check-Clear_iff (some c) (some b) gpu storage = ground (
    arith,
    generation_check-Clear (number c Group.bandwidth "pcie_generation" none)
        (number b Group.bandwidth "pcie_generation" none) (required_generation gpu storage),
  )

  pub usb_topology_check-Clear_iff :
      (board case : Option (ComponentNode F))
      → Clear (usb_topology_check board case) ↔ IfBoth board case UsbSuffices
  unfolding usb_topology_check headers_suffice bandwidth_check
  usb_topology_check-Clear_iff none case = (λ _. tt, λ _. refl)
  usb_topology_check-Clear_iff (some b) none = (λ _. tt, λ _. refl)
  usb_topology_check-Clear_iff (some b) (some c) = ground arith

  pub case_fit_checks-Clear_iff :
      (gpu board case cooler : Option (ComponentNode F))
      → Clear (case_fit_checks gpu board case cooler) ↔ (
          IfBoth board case FormFactorFits
          × IfBoth gpu case GpuFits
          × IfBoth cooler case CoolerFits)
  unfolding case_fit_checks
  case_fit_checks-Clear_iff gpu board case cooler = ground (
    arith,
    Clear-append (form_factor_check board case)
        (gpu_length_check gpu case ++ cooler_height_check cooler case),
    Clear-append (gpu_length_check gpu case) (cooler_height_check cooler case),
    form_factor_check-Clear_iff board case,
    gpu_length_check-Clear_iff gpu case,
    cooler_height_check-Clear_iff cooler case,
  )

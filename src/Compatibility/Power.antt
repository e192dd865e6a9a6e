-- ===== src/Compatibility/Power.antt =====
-- `_power_check` of backend/app/services/compatibility.py.
use ai_repo.Prelude.{Option, none, some, List, [], ◌∷◌, map, Raises, ◌>>=◌}
use ai_repo.Runtime.{Builtins, zero_float, or_zero, sum_from}
use ai_repo.Domain.{ComponentNode, first_known_number, power_draw_fields, psu_wattage_fields}
use ai_repo.Compatibility.Verdict.{Check, critical_check, unknown_check}

module _ {F : Type 0} ⦃py : Builtins F⦄ where
  -- `_first_known_number(component, POWER_DRAW_FIELDS, default=0.0) or 0.0`
  abbrev pub power_draw : ComponentNode F → F
  power_draw component = or_zero (first_known_number component power_draw_fields)

  unfoldable pub total_power_draw : List (ComponentNode F) → F
  total_power_draw components = sum_from zero_float (map power_draw components)

  -- `float(ceil((total_draw + 60.0) * 1.35))`
  unfoldable pub required_wattage : F → Raises F
  required_wattage draw = py.ceil (py.mul (py.add draw (py.literal 60 0)) (py.literal 135 2))

  unfoldable pub psu_check : Option (ComponentNode F) → F → List Check
  psu_check none required = []
  psu_check (some psu) required = elim (first_known_number psu psu_wattage_fields) [
    | none ↦ unknown_check "psu:system:wattage" "PSU continuous wattage" ∷ []
    | some wattage ↦
        critical_check "psu:system:wattage" "PSU wattage exceeds modeled system draw"
          (py.le required wattage)
        ∷ []
  ]

  -- the modelled draw, the required wattage, and the checks
  unfoldable pub power_check :
      List (ComponentNode F) → Option (ComponentNode F) → Raises (F × F × List Check)
  unfolding total_power_draw required_wattage psu_check
  power_check components psu = do
    required ← required_wattage (total_power_draw components)
    some (total_power_draw components, required, psu_check psu required)

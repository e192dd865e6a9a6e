-- ===== src/Tests/Checks.antt =====
-- `check` of backend/app/services/compatibility.py: concrete runs.
use ai_repo.Prelude.{◌≡◌, refl, ◌↔◌, some, true, false, length, All}
use ai_repo.Runtime.{Milli, milli_builtins}
use ai_repo.Domain.{ids, lookup}
use ai_repo.Geometry.{volumes_of, detect_collisions, volume_from_component}
use ai_repo.Geometry.WellFormed.{IsWellFormed}
use ai_repo.Compatibility.Space.{physical_collision_check}
use ai_repo.Compatibility.{CompatibilityRequest, CompatibilityResponse, check, nodes}
use ai_repo.Compatibility.Power.{power_check, total_power_draw}
use ai_repo.Compatibility.Sound.{IsCompatible, found, check-valid_iff}
use ai_repo.Compatibility.Sound.States.{IsCoherent, check-IsCoherent, check-returns_iff}
use ai_repo.Tests.{repository, selection}

abbrev request : CompatibilityRequest
request = record { selection = selection; qvl_required = false }

returns : (response : CompatibilityResponse Milli) × (check repository request ≡ some response)
unfolding check power_check physical_collision_check detect_collisions volumes_of ids
    volume_from_component lookup
returns = (_, refl)

check-returns_iff_example :
    ((response : CompatibilityResponse Milli) × (check repository request ≡ some response)) ↔ (
      ((required : Milli) × (milli_builtins.ceil (
            milli_builtins.mul
              (milli_builtins.add
                (total_power_draw (nodes (found repository request)))
                (milli_builtins.literal 60 0))
              (milli_builtins.literal 135 2))
          ≡ some required))
      × All IsWellFormed (nodes (found repository request)))
check-returns_iff_example = check-returns_iff repository request

check-IsCoherent_example : IsCoherent returns.0 (length (ids request.selection))
check-IsCoherent_example = check-IsCoherent repository request returns.1

check-valid_iff_example :
    (returns.0.valid ≡ true)
    ↔ IsCompatible repository request (found repository request) returns.0.required_psu_w
check-valid_iff_example = check-valid_iff repository request returns.1

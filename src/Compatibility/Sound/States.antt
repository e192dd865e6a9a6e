-- ===== src/Compatibility/Sound/States.antt =====
-- The state that `check` of backend/app/services/compatibility.py reports, and when it returns.
use ai_repo.Prelude.{
  ℕ, String, ◌≡◌, ◌≢◌, refl, ◌↔◌, some, true, false, List, [], ◌∷◌, arith, bind-eq-some,
  bind-returns, length, All,
}
use ai_repo.Runtime.{Builtins}
use ai_repo.Domain.{ids}
use ai_repo.Geometry.{volumes_of, detect_collisions}
use ai_repo.Geometry.WellFormed.{IsWellFormed, volumes_of-returns_iff}
use ai_repo.Repository.{Repository}
use ai_repo.Compatibility.Verdict.{Check}
use ai_repo.Compatibility.Power.{power_check, total_power_draw, required_wattage}
use ai_repo.Compatibility.Space.{physical_collision_check}
use ai_repo.Compatibility.{
  CompatibilityRequest, CompatibilityResponse, State, component, nodes, respond, check,
}
use ai_repo.Compatibility.Sound.{found, check-Ran}

-- How the fields of an answer hang together.
pub record IsCoherent {F : Type 0} (response : CompatibilityResponse F) (selected : ℕ)
    : Type 0 where
  pub reported : response.checks ≢ []
  pub invalid : (response.state ≡ State.invalid_configuration) ↔ (response.valid ≡ false)
  pub complete :
      (response.state ≡ State.valid_configuration)
      ↔ ((response.valid ≡ true) × (response.missing_component_ids ≡ []) × (selected ≡ 8))

module _ {F : Type 0} where
  respond-reported :
      (checks : List Check) (draw required : F) (component_ids missing : List String)
      → (respond checks draw required component_ids missing).checks ≢ []
  unfolding respond
  respond-reported [] draw required component_ids missing e = cc
  respond-reported (c ∷ checks) draw required component_ids missing e = cc

  respond-IsCoherent :
      (checks : List Check) (draw required : F) (component_ids missing : List String)
      → IsCoherent (respond checks draw required component_ids missing) (length component_ids)
  unfolding respond
  respond-IsCoherent checks draw required component_ids [] = record {
    reported = respond-reported checks draw required component_ids [];
    invalid = ground arith;
    complete = ground arith;
  }
  respond-IsCoherent checks draw required component_ids (m ∷ missing) = record {
    reported = respond-reported checks draw required component_ids (m ∷ missing);
    invalid = ground arith;
    complete = ground arith;
  }

module _ {F : Type 0} ⦃py : Builtins F⦄ (repository : Repository F)
    (request : CompatibilityRequest) where
  -- Where `check` returns, it reports at least one check, the state is `invalid_configuration`
  -- exactly when the answer is not valid, and `valid_configuration` exactly when it is valid, no
  -- component is missing and all eight slots are filled.
  pub check-IsCoherent :
      {response : CompatibilityResponse F}
      → check repository request ≡ some response
      → IsCoherent response (length (ids request.selection))
  check-IsCoherent e =
      let ran = check-Ran repository request e in
      rw (← ran.answered) (respond-IsCoherent _ _ _ (ids request.selection) _)

  -- `check` returns exactly when 1.35 times the modelled draw and 60 watts can be rounded up to a
  -- number, and for each part that the graph knows: one of the three keys of its size is missing, or
  -- each of its offsets that is given is a number and its three sizes are numbers that are not <= 0.
  pub check-returns_iff :
      ((response : CompatibilityResponse F) × (check repository request ≡ some response)) ↔ (
        ((required : F) × (py.ceil (
              py.mul
                (py.add (total_power_draw (nodes (found repository request))) (py.literal 60 0))
                (py.literal 135 2))
            ≡ some required))
        × All IsWellFormed (nodes (found repository request)))
  unfolding check power_check physical_collision_check detect_collisions required_wattage
  check-returns_iff = (
    λ h.
        let (power, p, e) =
          bind-eq-some
            (power_check (nodes (found repository request))
              (component (found repository request) request.selection.psu_id))
            _ h.1 in
        let (required, r, _) =
          bind-eq-some (required_wattage (total_power_draw (nodes (found repository request)))) _
            p in
        let (physical, q, _) =
          bind-eq-some
            (physical_collision_check repository (nodes (found repository request))
              (ids request.selection))
            _ e in
        let (pairs, d, _) =
          bind-eq-some (detect_collisions (nodes (found repository request))) _ q in
        let (volumes, v, _) = bind-eq-some (volumes_of (nodes (found repository request))) _ d in
        ((required, r), (volumes_of-returns_iff (nodes (found repository request))).0 (volumes, v)),
    λ h.
        let parts = nodes (found repository request) in
        bind-returns
          (power_check parts (component (found repository request) request.selection.psu_id)) _
          (bind-returns (required_wattage (total_power_draw parts)) _ h.0.1 (_, refl)).1
          (bind-returns (physical_collision_check repository parts (ids request.selection)) _
            (bind-returns (detect_collisions parts) _
              (bind-returns (volumes_of parts) _ ((volumes_of-returns_iff parts).1 h.1).1
                (_, refl)).1
              (_, refl)).1
            (_, refl)),
  )

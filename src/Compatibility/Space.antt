-- ===== src/Compatibility/Space.antt =====
-- `_physical_collision_check` of backend/app/services/compatibility.py.
use ai_repo.Prelude.{
  String, some, false, List, [], ◌∷◌, ◌++◌, map, if◌then◌else◌, any, Raises, ◌>>=◌,
}
use ai_repo.Runtime.{Builtins}
use ai_repo.Text.{◌⧺◌}
use ai_repo.Domain.{ComponentNode, Group, property, value_truthy}
use ai_repo.Compatibility.Verdict.{Check, Status, Severity, critical_check}
use ai_repo.Geometry.{BoundingBox, detect_collisions}
use ai_repo.Repository.{Repository}

abbrev pub blocker_check : String × String → Check
blocker_check (source, target) =
    critical_check ("space:blocker:" ⧺ source ⧺ ":" ⧺ target) "Known physical blocking relationship"
      false

abbrev pub no_collision_check : Check
no_collision_check = record {
  id = "space:aabb";
  label = "3D volumetric collision detection";
  status = Status.pass;
  severity = Severity.info;
}

module _ {F : Type 0} ⦃py : Builtins F⦄ where
  abbrev pub collision_check : BoundingBox F × BoundingBox F → Check
  collision_check (left, right) =
      critical_check ("space:aabb:" ⧺ left.component_id ⧺ ":" ⧺ right.component_id)
        "3D volumetric collision detection" false

  -- The checks after the call of `detect_collisions`.
  unfoldable pub collision_checks :
      List (ComponentNode F) → List (BoundingBox F × BoundingBox F) → List Check
  collision_checks components [] =
      if any (λ c. value_truthy (property c Group.dimensions "volume_width_mm")) components
      then no_collision_check ∷ []
      else []
  collision_checks components (pair ∷ pairs) = map collision_check (pair ∷ pairs)

  unfoldable pub physical_collision_check :
      Repository F → List (ComponentNode F) → List String → Raises (List Check)
  unfolding collision_checks
  physical_collision_check repository components component_ids = do
    collisions ← detect_collisions components
    some (
        map blocker_check (repository.known_space_blockers component_ids)
        ++ collision_checks components collisions)

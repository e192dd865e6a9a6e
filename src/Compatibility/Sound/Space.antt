-- ===== src/Compatibility/Sound/Space.antt =====
-- When `_physical_collision_check` of backend/app/services/compatibility.py appends no failure.
use mathlib.Core.Path.{subst}
use mathlib.Core.Option.{some-injective}
use ai_repo.Prelude.{
  String, ◌≡◌, refl, ◌↔◌, some, List, [], ◌∷◌, ◌++◌, arith, map, bind-eq-some, sym, ◌∙◌,
}
use ai_repo.Runtime.{Builtins}
use ai_repo.Domain.{ComponentNode}
use ai_repo.Geometry.{BoundingBox, volumes_of, detect_collisions, collisions_among}
use ai_repo.Geometry.Overlap.{Disjoint, collisions_among-eq-nil_iff}
use ai_repo.Repository.{Repository}
use ai_repo.Compatibility.Verdict.{Check}
use ai_repo.Compatibility.Space.{blocker_check, collision_checks, physical_collision_check}
use ai_repo.Compatibility.Sound.Parts.{Clear, Clear-append}

blockers-Clear_iff : (rows : List (String × String)) → Clear (map blocker_check rows) ↔ (rows ≡ [])
blockers-Clear_iff [] = (λ _. refl, λ _. refl)
blockers-Clear_iff ((s, t) ∷ rows) = (λ h. cc, λ h. cc)

module _ {F : Type 0} ⦃py : Builtins F⦄ where
  collision_checks-Clear_iff :
      (components : List (ComponentNode F)) (pairs : List (BoundingBox F × BoundingBox F))
      → Clear (collision_checks components pairs) ↔ (pairs ≡ [])
  unfolding collision_checks
  collision_checks-Clear_iff components [] = (λ _. refl, λ _. ground arith)
  collision_checks-Clear_iff components ((l, r) ∷ pairs) = (λ h. cc, λ h. cc)

  -- Nothing is modelled in the way of anything else.
  abbrev pub SpaceIsFree : Repository F → List (ComponentNode F) → List String → Type 0
  SpaceIsFree repository components component_ids =
      (repository.known_space_blockers component_ids ≡ [])
      × ((volumes : List (BoundingBox F)) → volumes_of components ≡ some volumes → Disjoint volumes)

  module _ (repository : Repository F) (components : List (ComponentNode F))
      (component_ids : List String) where
    abbrev appended : List (BoundingBox F × BoundingBox F) → List Check
    appended pairs =
        map blocker_check (repository.known_space_blockers component_ids)
        ++ collision_checks components pairs

    appended-Clear_iff :
        (volumes : List (BoundingBox F)) {checks : List Check}
        → volumes_of components ≡ some volumes
        → some (appended (collisions_among volumes)) ≡ some checks
        → Clear checks ↔ SpaceIsFree repository components component_ids
    appended-Clear_iff volumes {checks} v e =
        let rows = repository.known_space_blockers component_ids in
        let pairs = collisions_among volumes in
        let parts = Clear-append (map blocker_check rows) (collision_checks components pairs) in
        let same : appended pairs ≡ checks = some-injective _ _ e in
        let blocked = blockers-Clear_iff rows in
        let met = collision_checks-Clear_iff components pairs in
        let apart = collisions_among-eq-nil_iff volumes in
        (
          λ h.
              let (a, b) = parts.0 (subst Clear (sym same) h) in
              (
                blocked.0 a,
                λ others w. subst Disjoint (some-injective _ _ (sym v ∙ w)) (apart.0 (met.0 b)),
              ),
          λ free. subst Clear same (parts.1 (blocked.1 free.0, met.1 (apart.1 (free.1 volumes v)))),
        )

    pub physical-Clear_iff :
        {checks : List Check}
        → physical_collision_check repository components component_ids ≡ some checks
        → Clear checks ↔ SpaceIsFree repository components component_ids
    unfolding physical_collision_check detect_collisions
    physical-Clear_iff {checks} e =
        let (pairs, found, e') = bind-eq-some (detect_collisions components) _ e in
        let (volumes, v, found') = bind-eq-some (volumes_of components) _ found in
        appended-Clear_iff volumes {checks = checks} v (rw (some-injective _ _ found') e')

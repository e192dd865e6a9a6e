-- ===== src/Tests/Spaces.antt =====
-- Boxes of backend/app/services/geometry.py: concrete runs.
use ai_repo.Prelude.{ℕ, String, ◌≡◌, refl, ◌↔◌, true, false, [], ◌∷◌}
use ai_repo.Runtime.{Milli, milli_builtins, Milli-IsOrdered}
use ai_repo.Geometry.{BoundingBox, aabb_intersects, collisions_among}
use ai_repo.Geometry.Overlap.{
  Inside, IsSolid, Disjoint, intersects_iff_shares_point, collisions_among-eq-nil_iff,
}

abbrev box : String → ℕ → ℕ → BoundingBox Milli
box name x width = record {
  component_id = name;
  label = name;
  x_mm = x;
  y_mm = 0;
  z_mm = 0;
  width_mm = width;
  height_mm = 100000;
  depth_mm = 100000;
}

box-IsSolid : IsSolid (box "gpu" 0 100000) × IsSolid (box "cooler" 50000 20000)
box-IsSolid = (
  record { wide = refl; high = refl; deep = refl },
  record { wide = refl; high = refl; deep = refl },
)

intersects_iff_shares_point_example :
    (aabb_intersects (box "gpu" 0 100000) (box "cooler" 50000 20000) ≡ true) ↔ (
      (p q s : Milli) × Inside (box "gpu" 0 100000) p q s × Inside (box "cooler" 50000 20000) p q s)
intersects_iff_shares_point_example =
    intersects_iff_shares_point Milli-IsOrdered (box "gpu" 0 100000) (box "cooler" 50000 20000)
      box-IsSolid.0 box-IsSolid.1

collisions_among-eq-nil_iff_example :
    (collisions_among (box "gpu" 0 100000 ∷ box "cooler" 50000 20000 ∷ box "psu" 100000 10000 ∷ [])
      ≡ [])
    ↔ Disjoint (box "gpu" 0 100000 ∷ box "cooler" 50000 20000 ∷ box "psu" 100000 10000 ∷ [])
collisions_among-eq-nil_iff_example =
    collisions_among-eq-nil_iff
      (box "gpu" 0 100000 ∷ box "cooler" 50000 20000 ∷ box "psu" 100000 10000 ∷ [])

touching : aabb_intersects (box "gpu" 0 100000) (box "psu" 100000 10000) ≡ false
unfolding aabb_intersects
touching = refl

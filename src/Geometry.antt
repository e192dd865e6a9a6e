-- ===== src/Geometry.antt =====
-- backend/app/services/geometry.py and `BoundingBox` of backend/app/models/domain.py: the modelled
-- volumes of components and the pairs that overlap.
pub mod Overlap
pub mod WellFormed
use ai_repo.Prelude.{
  ℕ, String, ◌≡◌, Option, none, some, Bool, true, false, ◌&&◌, ◌||◌, List, [], ◌∷◌, ◌++◌, pos,
  if◌then◌else◌, filter, map, get_or, is_some, Raises, ◌>>=◌,
}
use ai_repo.Runtime.{Builtins, zero_float}
use ai_repo.Domain.{ComponentNode, Value, Scalar, lookup, float_of}

pub record BoundingBox (F : Type 0) : Type 0 where
  pub component_id : String
  pub label : String
  pub x_mm : F
  pub y_mm : F
  pub z_mm : F
  pub width_mm : F
  pub height_mm : F
  pub depth_mm : F

module _ {F : Type 0} ⦃py : Builtins F⦄ where
  abbrev pub max_x : BoundingBox F → F
  max_x b = py.add b.x_mm b.width_mm

  abbrev pub max_y : BoundingBox F → F
  max_y b = py.add b.y_mm b.height_mm

  abbrev pub max_z : BoundingBox F → F
  max_z b = py.add b.z_mm b.depth_mm

  -- The validator of the three sizes: `value <= 0` raises.
  unfoldable pub positive_dimension : F → Raises F
  positive_dimension value = if py.le value zero_float then none else some value

  -- `float(dims.get(key, 0))`
  unfoldable pub offset : List (String × Value F) → String → Raises F
  offset dims key = float_of (get_or (lookup key dims) (Value.scalar (Scalar.int (pos 0))))

  -- `float(dims[key])`
  unfoldable pub dimension : List (String × Value F) → String → Raises F
  dimension dims key = lookup key dims >>= float_of

  -- the call of the constructor, for a component whose three sizes are keys
  unfoldable pub build_box : ComponentNode F → Raises (BoundingBox F)
  unfolding positive_dimension offset dimension
  build_box component = do
    x ← offset component.dimensions "volume_x_mm"
    y ← offset component.dimensions "volume_y_mm"
    z ← offset component.dimensions "volume_z_mm"
    w ← dimension component.dimensions "volume_width_mm"
    h ← dimension component.dimensions "volume_height_mm"
    d ← dimension component.dimensions "volume_depth_mm"
    width ← positive_dimension w
    height ← positive_dimension h
    depth ← positive_dimension d
    some (record {
      component_id = component.id;
      label = component.name;
      x_mm = x;
      y_mm = y;
      z_mm = z;
      width_mm = width;
      height_mm = height;
      depth_mm = depth;
    })

  -- `none` is an exception, `some none` a component with no modelled volume
  unfoldable pub volume_from_component : ComponentNode F → Raises (Option (BoundingBox F))
  unfolding build_box
  volume_from_component component =
      let dims = component.dimensions in
      if is_some (lookup "volume_width_mm" dims)
        && is_some (lookup "volume_height_mm" dims)
        && is_some (lookup "volume_depth_mm" dims)
      then build_box component >>= (λ box. some (some box))
      else some none

  -- `a > b` is written `lt b a`
  unfoldable pub aabb_intersects : BoundingBox F → BoundingBox F → Bool
  aabb_intersects left right =
      py.lt left.x_mm (max_x right)
      && py.lt right.x_mm (max_x left)
      && py.lt left.y_mm (max_y right)
      && py.lt right.y_mm (max_y left)
      && py.lt left.z_mm (max_z right)
      && py.lt right.z_mm (max_z left)

  -- the volumes of the components that have one, in order
  unfoldable pub volumes_of : List (ComponentNode F) → Raises (List (BoundingBox F))
  volumes_of [] = some []
  volumes_of (component ∷ rest) = do
    volume ← volume_from_component component
    others ← volumes_of rest
    some (elim volume [ none ↦ others | some v ↦ v ∷ others ])

  -- the inner loop: the later volumes that meet `left`
  unfoldable pub hits : BoundingBox F → List (BoundingBox F) → List (BoundingBox F × BoundingBox F)
  hits left later = map (λ right. (left, right)) (filter (aabb_intersects left) later)

  unfoldable pub collisions_among : List (BoundingBox F) → List (BoundingBox F × BoundingBox F)
  unfolding hits
  collisions_among [] = []
  collisions_among (left ∷ later) = hits left later ++ collisions_among later

  unfoldable pub detect_collisions :
      List (ComponentNode F) → Raises (List (BoundingBox F × BoundingBox F))
  detect_collisions components =
      volumes_of components >>= λ volumes. some (collisions_among volumes)

-- ===== src/Geometry/WellFormed.antt =====
-- When the volumes of backend/app/services/geometry.py can be built, with the validator of
-- `BoundingBox` (backend/app/models/domain.py).
use ai_repo.Prelude.{
  String, ◌≡◌, refl, sym, ap, ◌∙◌, ◌↔◌, ◌⊎◌, inl, inr, Option, none, some, false, List, [], ◌∷◌,
  All, IfSome, Bool-cases, Option-cases, bind-eq-some, bind-returns, ◌>>=◌,
}
use ai_repo.Runtime.{Builtins, zero_float}
use ai_repo.Domain.{ComponentNode, Value, lookup, float_of}
use ai_repo.Geometry.{
  BoundingBox, positive_dimension, offset, dimension, build_box, volume_from_component, volumes_of,
}

module _ {F : Type 0} ⦃py : Builtins F⦄ where
  -- `float(value)` returns.
  abbrev pub IsNumber : Value F → Type 0
  IsNumber value = (x : F) × (float_of value ≡ some x)

  -- The value is given and a size: a number that is not `<= 0`.
  abbrev pub IsSize : Option (Value F) → Type 0
  IsSize given =
      (value : Value F) × (given ≡ some value)
      × (x : F) × (float_of value ≡ some x)
      × (py.le x zero_float ≡ false)

  -- The three offsets, where they are given, are numbers, and the three sizes are sizes.
  pub record IsBox (dims : List (String × Value F)) : Type 0 where
    pub x : IfSome (lookup "volume_x_mm" dims) IsNumber
    pub y : IfSome (lookup "volume_y_mm" dims) IsNumber
    pub z : IfSome (lookup "volume_z_mm" dims) IsNumber
    pub width : IsSize (lookup "volume_width_mm" dims)
    pub height : IsSize (lookup "volume_height_mm" dims)
    pub depth : IsSize (lookup "volume_depth_mm" dims)

  -- The component models no volume, since one of the three sizes is no key, or a well formed one.
  abbrev pub IsWellFormed : ComponentNode F → Type 0
  IsWellFormed component =
      let dims = component.dimensions in
      (lookup "volume_width_mm" dims ≡ none)
      ⊎ (lookup "volume_height_mm" dims ≡ none)
      ⊎ (lookup "volume_depth_mm" dims ≡ none)
      ⊎ IsBox dims

  module _ (dims : List (String × Value F)) (key : String) where
    offset-returns_iff : ((x : F) × (offset dims key ≡ some x)) ↔ IfSome (lookup key dims) IsNumber
    unfolding offset float_of
    offset-returns_iff = elim (Option-cases (lookup key dims)) [
      | inl e ↦ rw (offset, e) (λ _. tt, λ _. (_, refl))
      | inr (v, e) ↦ rw (offset, e) (λ h. h, λ h. h)
    ]

    dimension-IsSize :
        {w x : F}
        → dimension dims key ≡ some w
        → positive_dimension w ≡ some x
        → IsSize (lookup key dims)
    unfolding dimension positive_dimension
    dimension-IsSize {w} {x} d p =
        let (v, l, n) = bind-eq-some (lookup key dims) float_of d in
        elim (Bool-cases (py.le w zero_float)) [
          | inl k ↦ let p' : none ≡ some x = rw k at p in cc
          | inr k ↦ (v, l, w, n, k)
        ]

    IsSize-dimension :
        IsSize (lookup key dims)
        → (w : F) × (dimension dims key ≡ some w) × (positive_dimension w ≡ some w)
    unfolding dimension positive_dimension
    IsSize-dimension (v, l, w, n, k) = (w, rw (dimension, l) n, rw (positive_dimension, k) refl)

  build_box-returns_iff :
      (component : ComponentNode F)
      → ((box : BoundingBox F) × (build_box component ≡ some box)) ↔ IsBox component.dimensions
  unfolding build_box
  build_box-returns_iff component =
      let dims = component.dimensions in
      (
        λ (box, e).
            let (x, ex, e1) = bind-eq-some (offset dims "volume_x_mm") _ e in
            let (y, ey, e2) = bind-eq-some (offset dims "volume_y_mm") _ e1 in
            let (z, ez, e3) = bind-eq-some (offset dims "volume_z_mm") _ e2 in
            let (w, ew, e4) = bind-eq-some (dimension dims "volume_width_mm") _ e3 in
            let (h, eh, e5) = bind-eq-some (dimension dims "volume_height_mm") _ e4 in
            let (d, ed, e6) = bind-eq-some (dimension dims "volume_depth_mm") _ e5 in
            let (w', pw, e7) = bind-eq-some (positive_dimension w) _ e6 in
            let (h', ph, e8) = bind-eq-some (positive_dimension h) _ e7 in
            let (d', pd, e9) = bind-eq-some (positive_dimension d) _ e8 in
            record {
              x = (offset-returns_iff dims "volume_x_mm").0 (x, ex);
              y = (offset-returns_iff dims "volume_y_mm").0 (y, ey);
              z = (offset-returns_iff dims "volume_z_mm").0 (z, ez);
              width = dimension-IsSize dims "volume_width_mm" ew pw;
              height = dimension-IsSize dims "volume_height_mm" eh ph;
              depth = dimension-IsSize dims "volume_depth_mm" ed pd;
            },
        λ box.
            let (x, ex) = (offset-returns_iff dims "volume_x_mm").1 box.x in
            let (y, ey) = (offset-returns_iff dims "volume_y_mm").1 box.y in
            let (z, ez) = (offset-returns_iff dims "volume_z_mm").1 box.z in
            let (w, ew, pw) = IsSize-dimension dims "volume_width_mm" box.width in
            let (h, eh, ph) = IsSize-dimension dims "volume_height_mm" box.height in
            let (d, ed, pd) = IsSize-dimension dims "volume_depth_mm" box.depth in
            bind-returns (offset dims "volume_x_mm") _ ex (
              bind-returns (offset dims "volume_y_mm") _ ey (
                bind-returns (offset dims "volume_z_mm") _ ez (
                  bind-returns (dimension dims "volume_width_mm") _ ew (
                    bind-returns (dimension dims "volume_height_mm") _ eh (
                      bind-returns (dimension dims "volume_depth_mm") _ ed (
                        bind-returns (positive_dimension w) _ pw (
                          bind-returns (positive_dimension h) _ ph
                            (bind-returns (positive_dimension d) _ pd (_, refl))))))))),
      )

  volume-built :
      (component : ComponentNode F) {w h d : Value F}
      → lookup "volume_width_mm" component.dimensions ≡ some w
      → lookup "volume_height_mm" component.dimensions ≡ some h
      → lookup "volume_depth_mm" component.dimensions ≡ some d
      → volume_from_component component ≡ (build_box component >>= λ box. some (some box))
  unfolding volume_from_component
  volume-built component ew eh ed = rw (volume_from_component, ew, eh, ed) refl

  volume-returns_iff :
      (component : ComponentNode F)
      → ((v : Option (BoundingBox F)) × (volume_from_component component ≡ some v))
        ↔ IsWellFormed component
  unfolding volume_from_component
  volume-returns_iff component =
      let dims = component.dimensions in
      let built = build_box-returns_iff component in
      elim (Option-cases (lookup "volume_width_mm" dims)) [
        | inl n ↦ (λ _. inl n, λ _. (none, rw (volume_from_component, n) refl))
        | inr (w, ew) ↦ elim (Option-cases (lookup "volume_height_mm" dims)) [
          | inl n ↦ (λ _. inr (inl n), λ _. (none, rw (volume_from_component, ew, n) refl))
          | inr (h, eh) ↦ elim (Option-cases (lookup "volume_depth_mm" dims)) [
            | inl n ↦
                (λ _. inr (inr (inl n)), λ _. (none, rw (volume_from_component, ew, eh, n) refl))
            | inr (d, ed) ↦ (
              λ (v, e).
                  let (box, b, _) =
                    bind-eq-some (build_box component) (λ box. some (some box))
                      (sym (volume-built component ew eh ed) ∙ e) in
                  inr (inr (inr (built.0 (box, b)))),
              λ k. elim k [
                | inl n ↦ cc
                | inr k' ↦ elim k' [
                  | inl n ↦ cc
                  | inr k'' ↦ elim k'' [
                    | inl n ↦ cc
                    | inr box ↦
                        let (b, e) = built.1 box in
                        (
                          some b,
                          volume-built component ew eh ed ∙ ap (λ o. o >>= λ x. some (some x)) e,
                        )
                  ]
                ]
              ],
            )
          ]
        ]
      ]

  -- All volumes are built exactly when each component is well formed.
  pub volumes_of-returns_iff :
      (components : List (ComponentNode F))
      → ((volumes : List (BoundingBox F)) × (volumes_of components ≡ some volumes))
        ↔ All IsWellFormed components
  unfolding volumes_of
  volumes_of-returns_iff [] = (λ _. tt, λ _. (_, refl))
  volumes_of-returns_iff (component ∷ rest) = (
    λ (vs, e).
        let (v, ev, e1) = bind-eq-some (volume_from_component component) _ e in
        let (others, eo, _) = bind-eq-some (volumes_of rest) _ e1 in
        ((volume-returns_iff component).0 (v, ev), (volumes_of-returns_iff rest).0 (others, eo)),
    λ h.
        bind-returns (volume_from_component component) _ ((volume-returns_iff component).1 h.0).1
          (bind-returns (volumes_of rest) _ ((volumes_of-returns_iff rest).1 h.1).1 (_, refl)),
  )

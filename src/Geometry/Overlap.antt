-- ===== src/Geometry/Overlap.antt =====
-- What the collision test of backend/app/services/geometry.py means in space.
use ai_repo.Prelude.{
  ◌≡◌, refl, ◌↔◌, inl, inr, true, false, List, [], ◌∷◌, arith, Bool-cases, All, append-eq-nil,
}
use ai_repo.Runtime.{Builtins, IsOrdered}
use ai_repo.Geometry.{BoundingBox, max_x, max_y, max_z, aabb_intersects, hits, collisions_among}

module _ {F : Type 0} ⦃py : Builtins F⦄ where
  -- `p` lies in the half-open interval from `lo` to `hi`.
  abbrev pub Between : F → F → F → Type 0
  Between lo hi p = (py.le lo p ≡ true) × (py.lt p hi ≡ true)

  -- The point (p, q, r) lies in the box.
  abbrev pub Inside : BoundingBox F → F → F → F → Type 0
  Inside b p q r =
      Between b.x_mm (max_x b) p × Between b.y_mm (max_y b) q × Between b.z_mm (max_z b) r

  -- The box is not empty, as the validator of its sizes makes sure in exact arithmetic.
  pub record IsSolid (b : BoundingBox F) : Type 0 where
    pub wide : py.lt b.x_mm (max_x b) ≡ true
    pub high : py.lt b.y_mm (max_y b) ≡ true
    pub deep : py.lt b.z_mm (max_z b) ≡ true

  -- Whether two boxes collide does not depend on their order.
  pub aabb_intersects_comm : (l r : BoundingBox F) → aabb_intersects l r ≡ aabb_intersects r l
  unfolding aabb_intersects
  aabb_intersects_comm l r = ground arith

  module _ (laws : IsOrdered F) where
    open laws use {le_of_lt, num_of_le, lt_of_le_lt, lt-eq-false_iff}

    shared :
        (a b c d : F)
        → py.lt a b ≡ true
        → py.lt c d ≡ true
        → py.lt a d ≡ true
        → py.lt c b ≡ true
        → (p : F) × Between a b p × Between c d p
    shared a b c d ab cd ad cb =
        let na = (num_of_le a b (le_of_lt a b ab)).0 in
        let nc = (num_of_le c d (le_of_lt c d cd)).0 in
        elim (Bool-cases (py.lt a c)) [
          | inl e ↦ (c, (le_of_lt a c e, cb), (nc, cd))
          | inr e ↦ (a, (na, ab), ((lt-eq-false_iff a c na nc).0 e, ad))
        ]

    apart : (a b c d p : F) → Between a b p → Between c d p → py.lt a d ≡ true
    apart a b c d p h k = lt_of_le_lt a p d h.0 k.1

    -- Two solid boxes are reported as colliding exactly when some point lies in both, each box taken
    -- with its lower faces and without its upper ones.
    pub intersects_iff_shares_point :
        (l r : BoundingBox F)
        → IsSolid l
        → IsSolid r
        → (aabb_intersects l r ≡ true) ↔ ((p q s : F) × Inside l p q s × Inside r p q s)
    unfolding aabb_intersects
    intersects_iff_shares_point l r hl hr = (to, from)
      where
        to : aabb_intersects l r ≡ true → (p q s : F) × Inside l p q s × Inside r p q s
        to h =
            let (p, pl, pr) =
              shared l.x_mm (max_x l) r.x_mm (max_x r) hl.wide hr.wide (ground arith)
                (ground arith) in
            let (q, ql, qr) =
              shared l.y_mm (max_y l) r.y_mm (max_y r) hl.high hr.high (ground arith)
                (ground arith) in
            let (s, sl, sr) =
              shared l.z_mm (max_z l) r.z_mm (max_z r) hl.deep hr.deep (ground arith)
                (ground arith) in
            (p, q, s, (pl, ql, sl), (pr, qr, sr))

        from : ((p q s : F) × Inside l p q s × Inside r p q s) → aabb_intersects l r ≡ true
        from (p, q, s, (pl, ql, sl), (pr, qr, sr)) = ground (
          arith,
          apart l.x_mm (max_x l) r.x_mm (max_x r) p pl pr,
          apart r.x_mm (max_x r) l.x_mm (max_x l) p pr pl,
          apart l.y_mm (max_y l) r.y_mm (max_y r) q ql qr,
          apart r.y_mm (max_y r) l.y_mm (max_y l) q qr ql,
          apart l.z_mm (max_z l) r.z_mm (max_z r) s sl sr,
          apart r.z_mm (max_z r) l.z_mm (max_z l) s sr sl,
        )

  -- No two of the boxes meet.
  abbrev pub Disjoint : List (BoundingBox F) → Type 0
  Disjoint [] = Unit
  Disjoint (l ∷ later) = All (λ r. aabb_intersects l r ≡ false) later × Disjoint later

  hits-nil :
      (l : BoundingBox F) (later : List (BoundingBox F))
      → All (λ r. aabb_intersects l r ≡ false) later
      → hits l later ≡ []
  unfolding hits
  hits-nil l [] h = refl
  hits-nil l (r ∷ later) h = rw h.0 (hits-nil l later h.1)

  hits-nil_conv :
      (l : BoundingBox F) (later : List (BoundingBox F))
      → hits l later ≡ []
      → All (λ r. aabb_intersects l r ≡ false) later
  unfolding hits
  hits-nil_conv l [] h = tt
  hits-nil_conv l (r ∷ later) h = elim (Bool-cases (aabb_intersects l r)) [
    | inl e ↦ cc (rw e at h)
    | inr e ↦ (e, hits-nil_conv l later (rw e at h))
  ]

  -- The collision list is empty exactly when no two volumes meet.
  pub collisions_among-eq-nil_iff :
      (volumes : List (BoundingBox F)) → (collisions_among volumes ≡ []) ↔ Disjoint volumes
  unfolding collisions_among
  collisions_among-eq-nil_iff [] = (λ _. tt, λ _. refl)
  collisions_among-eq-nil_iff (l ∷ later) = (
    λ h.
        let (a, b) = append-eq-nil (hits l later) (collisions_among later) h in
        (hits-nil_conv l later a, (collisions_among-eq-nil_iff later).0 b),
    λ h. rw (hits-nil l later h.0) ((collisions_among-eq-nil_iff later).1 h.1),
  )

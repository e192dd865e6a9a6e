-- ===== src/Catalog/Review/Sound.antt =====
-- The images that decisions of backend/app/catalog/image_review.py leave behind.
use mathlib.Core.Option.{some-injective}
use ai_repo.Prelude.{
  ℕ, ◌≡◌, ◌≢◌, ◌⊎◌, refl, sym, ap, ◌∙◌, inl, inr, Option, none, some, true, false, List, [], ◌∷◌,
  eqb, eq_iff, In, Bool-cases, arith,
}
use ai_repo.Catalog.Images.{ProductImage}
use ai_repo.Catalog.Images.Evaluate.Acceptable.{HasNoRival}
use ai_repo.Catalog.Review.{find_image, put_image, old_primary, is_old_primary}

-- Ids are keys, an approved image has approved rights and acceptable quality, and a product has at most one approved
-- primary image.
pub record IsSound (images : List ProductImage) : Type 0 where
  pub keys : (i j : ProductImage) → In i images → In j images → i.id ≡ j.id → i ≡ j
  pub products : (i : ProductImage) → In i images → i.product_id ≢ 0
  pub earned :
      (i : ProductImage)
      → In i images
      → i.review_status ≡ "approved"
      → (i.rights_status ≡ "approved") × (i.quality_status ≡ "acceptable")
  pub one_primary :
      (i j : ProductImage)
      → In i images
      → In j images
      → i.product_id ≡ j.product_id
      → (i.is_primary ≡ true) × (i.review_status ≡ "approved")
      → (j.is_primary ≡ true) × (j.review_status ≡ "approved")
      → i.id ≡ j.id

-- What an image must meet to take the place of its old version.
pub record Fits (images : List ProductImage) (image : ProductImage) : Type 0 where
  pub product : image.product_id ≢ 0
  pub earned :
      image.review_status ≡ "approved"
      → (image.rights_status ≡ "approved") × (image.quality_status ≡ "acceptable")
  pub no_rival :
      (image.is_primary ≡ true) × (image.review_status ≡ "approved") → HasNoRival images image

pub In-put :
    (image j : ProductImage) (images : List ProductImage)
    → In j (put_image image images)
    → (j ≡ image) ⊎ (In j images × (j.id ≢ image.id))
unfolding put_image
In-put image j [] m = absurd m
In-put image j (i ∷ images) m = elim (Bool-cases (eqb i.id image.id)) [
  | inl e ↦
      let m' : In j (image ∷ put_image image images) = rw e at m in
      elim m' [
        | inl q ↦ inl q
        | inr k ↦ elim (In-put image j images k) [ inl q ↦ inl q | inr (l, d) ↦ inr (inr l, d) ]
      ]
  | inr e ↦
      let m' : In j (i ∷ put_image image images) = rw e at m in
      elim m' [
        | inl q ↦
            inr (inl q, λ same. let e' : eqb j.id image.id ≡ false = rw (← q) at e in ground arith)
        | inr k ↦ elim (In-put image j images k) [ inl q ↦ inl q | inr (l, d) ↦ inr (inr l, d) ]
      ]
]

pub put_image-IsSound :
    (images : List ProductImage) (image : ProductImage)
    → IsSound images
    → Fits images image
    → IsSound (put_image image images)
put_image-IsSound images image sound fits = record {
  keys = λ i j m k e. elim (In-put image i images m) [
    | inl p ↦ elim (In-put image j images k) [
      | inl q ↦ p ∙ sym q
      | inr (l, d) ↦ absurd (d (sym e ∙ ap (λ x. x.id) p))
    ]
    | inr (m', d) ↦ elim (In-put image j images k) [
      | inl q ↦ absurd (d (e ∙ ap (λ x. x.id) q))
      | inr (k', _) ↦ sound.keys i j m' k' e
    ]
  ];
  products = λ i m. elim (In-put image i images m) [
    | inl p ↦ rw p fits.product
    | inr (m', _) ↦ sound.products i m'
  ];
  earned = λ i m. elim (In-put image i images m) [
    | inl p ↦ rw p fits.earned
    | inr (m', _) ↦ sound.earned i m'
  ];
  one_primary = λ i j m k same p q. elim (In-put image i images m) [
    | inl e ↦ elim (In-put image j images k) [
      | inl f ↦ ap (λ x. x.id) (e ∙ sym f)
      | inr (k', d) ↦
          let p' : (image.is_primary ≡ true) × (image.review_status ≡ "approved") =
            (ap (λ x. x.is_primary) (sym e) ∙ p.0, ap (λ x. x.review_status) (sym e) ∙ p.1) in
          absurd (d (fits.no_rival p' j k' (sym same ∙ ap (λ x. x.product_id) e) q.0 q.1))
    ]
    | inr (m', d) ↦ elim (In-put image j images k) [
      | inl f ↦
          let q' : (image.is_primary ≡ true) × (image.review_status ≡ "approved") =
            (ap (λ x. x.is_primary) (sym f) ∙ q.0, ap (λ x. x.review_status) (sym f) ∙ q.1) in
          absurd (d (fits.no_rival q' i m' (same ∙ ap (λ x. x.product_id) f) p.0 p.1))
      | inr (k', _) ↦ sound.one_primary i j m' k' same p q
    ]
  ];
}

pub find_image-In :
    (id : ℕ) (images : List ProductImage) {image : ProductImage}
    → find_image id images ≡ some image
    → In image images × (image.id ≡ id)
unfolding find_image
find_image-In id [] e = cc
find_image-In id (i ∷ images) e = elim (Bool-cases (eqb i.id id)) [
  | inl same ↦
      let e' : ◌≡◌ {A = Option ProductImage} (some i) (some _) = rw same at e in
      let found = some-injective _ _ e' in
      (inl (sym found), ap (λ x. x.id) (sym found) ∙ ground arith)
  | inr differ ↦ let (m, k) = find_image-In id images (rw differ at e) in (inr m, k)
]

pub old_primary-none :
    (image : ProductImage) (images : List ProductImage)
    → old_primary image images ≡ none
    → HasNoRival images image
unfolding old_primary
old_primary-none image [] e i m p r a = absurd m
old_primary-none image (x ∷ images) e i (inl q) p r a =
    rw q (ground (arith, eq_iff x.review_status "approved"))
old_primary-none image (x ∷ images) e i (inr m) p r a =
    old_primary-none image images (ground arith) i m p r a

pub old_primary-In :
    (image : ProductImage) (images : List ProductImage) {old : ProductImage}
    → old_primary image images ≡ some old
    → In old images
      × (old.product_id ≡ image.product_id)
      × (old.is_primary ≡ true)
      × (old.review_status ≡ "approved")
      × (old.id ≢ image.id)
unfolding old_primary
old_primary-In image [] e = cc
old_primary-In image (x ∷ images) e = elim (Bool-cases (is_old_primary image x)) [
  | inl yes_x ↦
      let e' : ◌≡◌ {A = Option ProductImage} (some x) (some _) = rw yes_x at e in
      rw (← some-injective _ _ e') (
        inl refl,
        ground arith,
        ground arith,
        ground (arith, eq_iff x.review_status "approved"),
        ground arith,
      )
  | inr no_x ↦
      let (m, p, r, a, d) = old_primary-In image images (rw no_x at e) in (inr m, p, r, a, d)
]

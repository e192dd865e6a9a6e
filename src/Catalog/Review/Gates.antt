-- ===== src/Catalog/Review/Gates.antt =====
-- Which images a decision of backend/app/catalog/image_review.py is open to.
use ai_repo.Prelude.{
  ◌≡◌, refl, inl, inr, Option, none, some, true, List, ◌==◌, Bool-cases, Option-cases, arith,
}
use ai_repo.Runtime.{Builtins}
use ai_repo.Catalog.Images.{
  ProductImage, Machine, ImageReviewConfig, Classification, acceptable, review_required, rejected,
}
use ai_repo.Catalog.Images.Evaluate.{evaluate_values}
use ai_repo.Catalog.Images.Sections.{is_acceptable}
use ai_repo.Catalog.Images.Evaluate.Acceptable.{IsFit, evaluate-acceptable_iff, eligible-acceptable}
use ai_repo.Catalog.Review.{approve, approve_primary, Refusal, refused, failed}
use ai_repo.Catalog.Review.Decide.{gate}

is_acceptable-acceptable : (c : Classification) → is_acceptable c ≡ true → c ≡ acceptable
is_acceptable-acceptable acceptable e = refl
is_acceptable-acceptable review_required e = cc
is_acceptable-acceptable rejected e = cc

module _ {F : Type 0} ⦃py : Builtins F⦄ (machine : Machine) (config : ImageReviewConfig F) where
  -- `approve` passes its gate only with an image that is fit.
  pub gate-IsFit :
      (image : ProductImage) (images : List ProductImage)
      → gate machine config approve image images ≡ none
      → IsFit machine config images image
  unfolding gate
  gate-IsFit image images g = elim (Bool-cases (machine.lower image.rights_status == "approved")) [
    | inr no_rights ↦
        let g' : ◌≡◌ {A = Option Refusal} (some (refused "RIGHTS_NOT_APPROVED")) none =
          rw (gate, no_rights) at g in
        absurd (ground arith)
    | inl rights ↦ elim (Option-cases (evaluate_values machine config images image)) [
      | inl raises ↦
          let g' : ◌≡◌ {A = Option Refusal} (some failed) none = rw (gate, rights, raises) at g in
          absurd (ground arith)
      | inr (e, found) ↦ elim (Bool-cases (is_acceptable e.classification)) [
        | inl ok ↦
            (evaluate-acceptable_iff machine config images image found).0
              (is_acceptable-acceptable e.classification ok)
        | inr bad ↦
            let g' : ◌≡◌ {A = Option Refusal} (some (refused "IMAGE_NOT_ELIGIBLE")) none =
              rw (gate, rights, found, bad) at g in
            absurd (ground arith)
      ]
    ]
  ]

  -- So does `approve_primary`: what is eligible is acceptable.
  pub primary_gate-IsFit :
      (image : ProductImage) (images : List ProductImage)
      → gate machine config approve_primary image images ≡ none
      → IsFit machine config images image
  unfolding gate
  primary_gate-IsFit image images g =
      elim (Option-cases (evaluate_values machine config images image)) [
        | inl raises ↦
            let g' : ◌≡◌ {A = Option Refusal} (some failed) none = rw (gate, raises) at g in
            absurd (ground arith)
        | inr (e, found) ↦ elim (Bool-cases e.primary_eligible) [
          | inl ok ↦
              (evaluate-acceptable_iff machine config images image found).0
                (eligible-acceptable machine config images image found ok)
          | inr bad ↦
              let g' : ◌≡◌ {A = Option Refusal} (some (refused "PRIMARY_NOT_ELIGIBLE")) none =
                rw (gate, found, bad) at g in
              absurd (ground arith)
        ]
      ]

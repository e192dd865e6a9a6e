-- ===== src/Catalog/Review/Queries.antt =====
-- The questions that `ImageReviewService` of backend/app/catalog/image_review.py answers without changing the session.
-- They need the review to be enabled; a Refusal says why there is no answer. The images stand in the order of their ids.
use mathlib.Core.List.{reverse}
use ai_repo.Prelude.{
  ℕ, ◌⊎◌, inl, inr, none, some, false, not, ◌||◌, List, [], ◌∷◌, ◌++◌, eqb, leb, length, ◌==◌,
  if◌then◌else◌, map, filter,
}
use ai_repo.Runtime.{Builtins}
use ai_repo.UserBuilds.Payload.{unique}
use ai_repo.Catalog.Images.{
  ProductImage, Machine, ImageReviewConfig, ImageEvaluation, review_required, enabled,
}
use ai_repo.Catalog.Images.Evaluate.{evaluate_values}
use ai_repo.Catalog.Review.{Session, ProductImageReview, Refusal, refused, failed, find_image}

abbrev Answer : Type 0 → Type 0
Answer A = Refusal ⊎ A

-- `_require_enabled`, and then the answer
abbrev when_enabled : {A : Type 0} → Machine → Answer A → Answer A
when_enabled machine answer =
    if enabled machine "CATALOG_IMAGE_REVIEW_ENABLED"
    then answer
    else inl (refused "Catalog image review is disabled.")

-- One evaluation of a product with too many images
abbrev crowded : ImageEvaluation → ImageEvaluation
crowded item = record item {
  classification = review_required;
  reason_codes = unique (item.reason_codes ++ "MAX_IMAGES_PER_PRODUCT" ∷ []);
  recommended_action = "REQUEST_CHANGES";
  primary_eligible = false;
}

-- The first refusal, or all answers
all_answers : {A : Type 0} → List (Answer A) → Answer (List A)
all_answers [] = inr []
all_answers (inl refusal ∷ answers) = inl refusal
all_answers (inr a ∷ answers) = elim (all_answers answers) [
  | inl refusal ↦ inl refusal
  | inr as_ ↦ inr (a ∷ as_)
]

module _ {F : Type 0} ⦃py : Builtins F⦄ (machine : Machine) (config : ImageReviewConfig F) where
  unfoldable pub evaluate_image : ℕ → Session → Answer ImageEvaluation
  unfolding find_image evaluate_values enabled
  evaluate_image image_id session =
      when_enabled machine (elim (find_image image_id session.images) [
        | none ↦ inl (refused "IMAGE_NOT_FOUND")
        | some image ↦ elim (evaluate_values machine config session.images image) [
          | none ↦ inl failed
          | some e ↦ inr e
        ]
      ])

  unfoldable pub evaluate_product : ℕ → Session → Answer (List ImageEvaluation)
  unfolding evaluate_image enabled all_answers
  evaluate_product product_id session =
      let images = filter (λ i. eqb i.product_id product_id) session.images in
      when_enabled machine (elim (all_answers (map (λ i. evaluate_image i.id session) images)) [
        | inl refusal ↦ inl refusal
        | inr evaluations ↦ inr (
            if leb (length images) config.maximum_images_per_product
            then evaluations
            else map crowded evaluations)
      ])

  unfoldable pub list_pending : Session → Answer (List ProductImage)
  unfolding enabled
  list_pending session = when_enabled machine (
      inr (
        filter
          (λ i.
            not (i.review_status == "approved")
            || not (i.rights_status == "approved")
            || not (i.quality_status == "acceptable"))
          session.images))

  -- The oldest review first
  unfoldable pub review_history : ℕ → Session → Answer (List ProductImageReview)
  unfolding enabled
  review_history image_id session =
      when_enabled machine (inr (reverse (filter (λ r. eqb r.image_id image_id) session.reviews)))

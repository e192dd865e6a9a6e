-- ===== src/Catalog/Images/Evaluate.antt =====
-- `_evaluate_values` of backend/app/catalog/image_review.py, put together from its sections.
pub mod Parts
pub mod Address
pub mod Acceptable
use ai_repo.Prelude.{
  ℕ, String, Option, none, some, Bool, true, false, not, ◌&&◌, ◌||◌, List, [], ◌∷◌, ◌++◌, ℤ, pos,
  lt_ℤ, eq_ℤ, is_nonzero, ltb, eqb, ◌+◌, ◌*◌, ◌==◌, if◌then◌else◌, any, all, filter, elem, is_empty,
  get_or, Raises, ◌>>=◌, concat,
}
use ai_repo.Runtime.{Builtins}
use ai_repo.Text.{strip, non_empty}
use ai_repo.UserBuilds.Payload.{unique}
use ai_repo.Catalog.Images.Sections.{
  Finding, rights_part, sizes, checksum_part, source_part, url_part, format_key, same_text, matches,
  has_url_match, is_size, is_conflict, duplicate_part, url_duplicates, has_primary, classify,
  is_acceptable, action_for, quality_for, dimension_part, aspect_part, format_part, file_size_part,
  freshness_part, Finding,
}
use ai_repo.Catalog.Images.{
  ProductImage, Machine, ImageReviewConfig, ImageEvaluation, Classification, acceptable,
  review_required, rejected, supported_formats, source_types, hard_failures, url_result, has_text,
}

module _ {F : Type 0} ⦃py : Builtins F⦄ (machine : Machine) (config : ImageReviewConfig F) where
  abbrev pub rights_of : ProductImage → String
  rights_of image = machine.upper image.rights_status

  abbrev pub checksum_of : ProductImage → String
  unfolding strip
  checksum_of image = strip (get_or image.checksum "")

  abbrev pub category_of : ProductImage → String
  category_of image =
      machine.upper (if has_text image.category then get_or image.category "" else "UNKNOWN")

  -- What each section appends to `reasons` before the classification, in order
  unfoldable pub sections_of :
      List ProductImage → ProductImage → String × String → List (List String)
  unfolding sizes checksum_of strip
  sections_of images image url =
      let size = sizes image.width image.height in
      url_part url
      ∷ (rights_part (rights_of image)).1
      ∷ (dimension_part machine config size).1
      ∷ (aspect_part machine config (category_of image) size).1
      ∷ (format_part machine config image.format).1
      ∷ (file_size_part machine config image.file_size).1
      ∷ (checksum_part (checksum_of image)).1
      ∷ (duplicate_part machine images image (checksum_of image) size).1
      ∷ url_duplicates images image
      ∷ source_part (machine.upper image.source_type)
      ∷ freshness_part machine config image.verified_at
      ∷ []

  unfoldable pub reasons_of : List ProductImage → ProductImage → String × String → List String
  unfolding sections_of
  reasons_of images image url = concat (sections_of images image url)

  -- The rest of the body, after `_url_result` has returned
  unfoldable pub evaluation_of :
      List ProductImage → ProductImage → String × String → ImageEvaluation
  unfolding reasons_of has_primary classify
  evaluation_of images image url =
      let size = sizes image.width image.height in
      let reasons = reasons_of images image url in
      let first = classify reasons in
      let eligible =
        is_acceptable first
        && rights_of image == "APPROVED"
        && non_empty (checksum_of image)
        && url.0 == "PASS" in
      let conflict = image.is_primary && not (eqb image.product_id 0) && has_primary images image in
      let demoted = conflict && is_acceptable first in
      let final : Classification = if demoted then review_required else first in
      let all_reasons = if conflict then reasons ++ "PRIMARY_CONFLICT" ∷ [] else reasons in
      let unsuitable =
        elem "CATEGORY_UNKNOWN" all_reasons || elem "ASPECT_RATIO_REVIEW" all_reasons in
      record {
        image_id = image.id;
        product_id = image.product_id;
        classification = final;
        results =
            ("url_result", url.0)
            ∷ ("host_policy_result", url.1)
            ∷ ("rights_result", (rights_part (rights_of image)).0)
            ∷ ("dimension_result", (dimension_part machine config size).0)
            ∷ ("aspect_ratio_result", (aspect_part machine config (category_of image) size).0)
            ∷ ("format_result", (format_part machine config image.format).0)
            ∷ ("file_size_result", (file_size_part machine config image.file_size).0)
            ∷ ("checksum_result", (checksum_part (checksum_of image)).0)
            ∷ ("duplicate_result", (duplicate_part machine images image (checksum_of image) size).0)
            ∷ ("primary_conflict_result", if conflict then "CONFLICT" else "NONE")
            ∷ ("category_suitability_result", if unsuitable then "REVIEW" else "PASS")
            ∷ ("recommended_quality", quality_for final)
            ∷ [];
        reason_codes =
            if is_empty all_reasons then "ACCEPTABLE_METADATA" ∷ [] else unique all_reasons;
        recommended_action = if demoted then "APPROVE_PRIMARY" else action_for first;
        primary_eligible = eligible && not conflict;
      }

  -- `_evaluate_values`; `none` where `urlparse` raises
  unfoldable pub evaluate_values : List ProductImage → ProductImage → Raises ImageEvaluation
  unfolding evaluation_of url_result
  evaluate_values images image =
      url_result machine config image.source_url image.storage_key >>= λ url.
      some (evaluation_of images image url)

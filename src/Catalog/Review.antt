-- ===== src/Catalog/Review.antt =====
-- Decisions on images and their audit, in backend/app/catalog/image_review.py. The
-- session is the list of images, with the audit records newest first; a commit at the end and the flushes between are
-- not told apart.
pub mod Decide
pub mod Sound
pub mod Gates
pub mod Recorded
pub mod Steps
pub mod Trail
pub mod Earned
pub mod Queries
use ai_repo.Prelude.{
  ◌≡◌, ℕ, String, Option, none, some, Bool, true, false, not, ◌&&◌, ◌||◌, List, [], ◌∷◌, ltb, eqb,
  ◌==◌, if◌then◌else◌, map, Option-cases, Raises, ◌>>=◌,
}
use ai_repo.Runtime.{Builtins}
use ai_repo.Text.{strip, non_empty, letters, has_control, contains}
use ai_repo.Catalog.Images.{ProductImage, Machine, ImageReviewConfig, ImageEvaluation, enabled}
use ai_repo.Catalog.Images.Evaluate.{evaluate_values}
use ai_repo.Catalog.Images.Sections.{is_acceptable}

pub data ImageReviewDecision : Type 0 where
  approve reject request_changes mark_duplicate approve_primary remove_primary expire_rights :
      ImageReviewDecision

-- Rights, quality and review status
pub record Statuses : Type 0 where
  pub rights : String
  pub quality : String
  pub review : String

pub record ProductImageReview : Type 0 where
  pub image_id : ℕ
  pub decision : ImageReviewDecision
  pub reason_code : String
  pub safe_reason : String
  pub reviewer_identifier : String
  pub previous : Statuses
  pub new : Statuses
  pub proposed_primary : Bool
  pub created_at : ℕ

pub record Session : Type 0 where
  pub images : List ProductImage
  pub reviews : List ProductImageReview

-- What `record_decision` does: it records, and returns the newest review; or it raises an error with a message; or an
-- exception of `urlparse` passes through
pub data Refusal : Type 0 where
  refused : String → Refusal
  failed : Refusal

pub data Decided : Type 0 where
  recorded : Session → Decided
  stopped : Refusal → Decided

abbrev pub statuses_of : ProductImage → Statuses
statuses_of image = record {
  rights = image.rights_status;
  quality = image.quality_status;
  review = image.review_status;
}

unfoldable pub decision_of : String → Option ImageReviewDecision
decision_of s =
    if s == "APPROVE"
    then some approve
    else if s == "REJECT"
    then some reject
    else if s == "REQUEST_CHANGES"
    then some request_changes
    else if s == "MARK_DUPLICATE"
    then some mark_duplicate
    else if s == "APPROVE_PRIMARY"
    then some approve_primary
    else if s == "REMOVE_PRIMARY"
    then some remove_primary
    else if s == "EXPIRE_RIGHTS"
    then some expire_rights
    else none

-- `_safe_text`; `none` where it raises
unfoldable pub safe_text : String → ℕ → Raises String
unfolding strip letters has_control
safe_text value limit =
    let text = strip value in
    if not (non_empty text) || ltb limit (letters text) || has_control text then none else some text

-- `session.get(ProductImage, image_id)`
unfoldable pub find_image : ℕ → List ProductImage → Option ProductImage
find_image id [] = none
find_image id (i ∷ images) = if eqb i.id id then some i else find_image id images

-- The changed object in the session
unfoldable pub put_image : ProductImage → List ProductImage → List ProductImage
put_image image images = map (λ i. if eqb i.id image.id then image else i) images

-- The query for the approved primary image that is replaced
abbrev pub is_old_primary : ProductImage → ProductImage → Bool
is_old_primary image i =
    eqb i.product_id image.product_id
    && i.is_primary
    && i.review_status == "approved"
    && not (eqb i.id image.id)

unfoldable pub old_primary : ProductImage → List ProductImage → Option ProductImage
old_primary image [] = none
old_primary image (i ∷ images) = if is_old_primary image i then some i else old_primary image images

-- `_audit`
unfoldable pub audit :
    Machine
    → ProductImage
    → ImageReviewDecision
    → (code reason reviewer : String) → (previous new : Statuses) → Bool
    → Session
    → Session
audit py image decision code reason reviewer previous new proposed_primary session =
    record session {
      reviews =
          record {
            image_id = image.id;
            decision = decision;
            reason_code = code;
            safe_reason = reason;
            reviewer_identifier = reviewer;
            previous = previous;
            new = new;
            proposed_primary = proposed_primary;
            created_at = py.now;
          }
          ∷ session.reviews;
    }

-- The attributes that a decision sets on the image itself
unfoldable pub changed : ImageReviewDecision → ProductImage → ProductImage
changed approve image = record image {
  rights_status = "approved";
  quality_status = "acceptable";
  review_status = "approved";
}
changed reject image = record image {
  rights_status = "rejected";
  quality_status = "rejected";
  review_status = "rejected";
  is_primary = false;
}
changed mark_duplicate image = record image {
  rights_status = "rejected";
  quality_status = "rejected";
  review_status = "rejected";
  is_primary = false;
}
changed request_changes image = record image { review_status = "pending" }
changed expire_rights image = record image {
  rights_status = "expired";
  review_status = "rejected";
  is_primary = false;
}
changed remove_primary image = record image { is_primary = false }
changed approve_primary image = record image {
  rights_status = "approved";
  quality_status = "acceptable";
  review_status = "approved";
  is_primary = true;
}

abbrev pub is_primary_decision : ImageReviewDecision → Bool
is_primary_decision approve_primary = true
is_primary_decision _ = false

-- ===== src/Catalog/Review/Decide.antt =====
-- `ImageReviewService.record_decision` of backend/app/catalog/image_review.py, and the sessions that it leads to.
use ai_repo.Prelude.{◌≡◌, ℕ, String, Option, none, some, false, not, List, ◌==◌, if◌then◌else◌}
use ai_repo.Runtime.{Builtins}
use ai_repo.Text.{contains}
use ai_repo.Catalog.Images.{ProductImage, Machine, ImageReviewConfig, enabled}
use ai_repo.Catalog.Images.Evaluate.{evaluate_values}
use ai_repo.Catalog.Images.Sections.{is_acceptable}
use ai_repo.Catalog.Review.{
  ImageReviewDecision, Session, Refusal, Decided, statuses_of, decision_of, safe_text, find_image,
  put_image, old_primary, audit, changed, is_primary_decision, approve, approve_primary,
  remove_primary, refused, failed, recorded, stopped,
}

module _ {F : Type 0} ⦃py : Builtins F⦄ (machine : Machine) (config : ImageReviewConfig F) where
  -- Why a decision is not taken, if it is not
  unfoldable pub gate : ImageReviewDecision → ProductImage → List ProductImage → Option Refusal
  unfolding evaluate_values
  gate approve image images =
      if not (machine.lower image.rights_status == "approved")
      then some (refused "RIGHTS_NOT_APPROVED")
      else elim (evaluate_values machine config images image) [
        | none ↦ some failed
        | some e ↦
            if is_acceptable e.classification then none else some (refused "IMAGE_NOT_ELIGIBLE")
      ]
  gate approve_primary image images = elim (evaluate_values machine config images image) [
    | none ↦ some failed
    | some e ↦ if e.primary_eligible then none else some (refused "PRIMARY_NOT_ELIGIBLE")
  ]
  gate _ image images = none

  -- `if old:` and its block
  unfoldable pub replaced : ImageReviewDecision → String → ProductImage → Session → Session
  unfolding old_primary put_image audit
  replaced approve_primary reviewer image session = elim (old_primary image session.images) [
    | none ↦ session
    | some old ↦
        audit machine old remove_primary "PRIMARY_REPLACED"
          "Primary replaced by an explicit review decision." reviewer (statuses_of old)
          (statuses_of old) false
          (record session { images = put_image (record old { is_primary = false }) session.images })
  ]
  replaced _ reviewer image session = session

  unfoldable pub decided_image : ImageReviewDecision → ProductImage → ProductImage
  unfolding changed
  decided_image decision image = record (changed decision image) { updated_at = machine.now }

  -- The session when the decision is taken
  unfoldable pub decided_session :
      ImageReviewDecision → (code reason reviewer : String) → ProductImage → Session → Session
  unfolding replaced put_image audit
  decided_session decision code reason reviewer image session =
      let cleared = replaced decision reviewer image session in
      let image' = decided_image decision image in
      audit machine image' decision code reason reviewer (statuses_of image) (statuses_of image')
        (is_primary_decision decision) (record cleared { images = put_image image' cleared.images })

  -- The decision, once its arguments are checked
  unfoldable pub take_decision :
      ImageReviewDecision → (code reason reviewer : String) → ProductImage → Session → Decided
  unfolding gate decided_session replaced put_image audit
  take_decision decision code reason reviewer image session =
      elim (gate decision image session.images) [
        | some refusal ↦ stopped refusal
        | none ↦ recorded (decided_session decision code reason reviewer image session)
      ]

  unfoldable pub check_texts :
      ImageReviewDecision → (code reason reviewer : String) → ProductImage → Session → Decided
  unfolding take_decision safe_text
  check_texts decision code reason reviewer image session =
      let unsafe =
        stopped (refused "review text is empty, too long, or contains control characters") in
      elim (safe_text (machine.upper code) 80) [
        | none ↦ unsafe
        | some code' ↦ elim (safe_text reason 500) [
          | none ↦ unsafe
          | some reason' ↦ elim (safe_text reviewer 120) [
            | none ↦ unsafe
            | some reviewer' ↦
                if contains "@" reviewer'
                then stopped (refused "reviewer identifier must not be an email address")
                else take_decision decision code' reason' reviewer' image session
          ]
        ]
      ]

  unfoldable pub record_decision : ℕ → (decision code reason reviewer : String) → Session → Decided
  unfolding enabled find_image decision_of check_texts
  record_decision image_id decision code reason reviewer session =
      if not (enabled machine "CATALOG_IMAGE_REVIEW_ENABLED")
      then stopped (refused "Catalog image review is disabled.")
      else if not (enabled machine "CATALOG_WRITES_ENABLED")
      then stopped (refused "Catalog image review writes are disabled.")
      else elim (find_image image_id session.images) [
        | none ↦ stopped (refused "IMAGE_NOT_FOUND")
        | some image ↦ elim (decision_of (machine.upper decision)) [
          | none ↦ stopped (refused "INVALID_REVIEW_DECISION")
          | some d ↦ check_texts d code reason reviewer image session
        ]
      ]

  -- A session after one decision, and after any number of them
  pub data Step : Session → Session → Type 0 where
    decide :
        {s t : Session} (image_id : ℕ) (decision code reason reviewer : String)
        → record_decision image_id decision code reason reviewer s ≡ recorded t
        → Step s t

  pub data Reach (s : Session) : Session → Type 0 where
    here : Reach s s
    next : {t u : Session} → Reach s t → Step t u → Reach s u

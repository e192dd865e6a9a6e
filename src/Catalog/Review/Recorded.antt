-- ===== src/Catalog/Review/Recorded.antt =====
-- What follows from a decision of backend/app/catalog/image_review.py that was recorded.
use ai_repo.Prelude.{ℕ, String, ◌≡◌, ap, inl, inr, none, some, Bool-cases, Option-cases, arith}
use ai_repo.Runtime.{Builtins}
use ai_repo.Text.{contains}
use ai_repo.Catalog.Images.{enabled, ProductImage, Machine, ImageReviewConfig}
use ai_repo.Catalog.Review.{
  ImageReviewDecision, Session, Refusal, recorded, stopped, safe_text, decision_of, find_image,
}
use ai_repo.Catalog.Review.Decide.{
  decided_session, gate, take_decision, check_texts, record_decision,
}

recorded-injective : {s t : Session} → recorded s ≡ recorded t → s ≡ t
recorded-injective {s} {t} e = ap (λ d. elim d [ recorded x ↦ x | stopped r ↦ s ]) e

not_recorded : {P : Type 0} {r : Refusal} {t : Session} → stopped r ≡ recorded t → P
not_recorded e = absurd (ground arith)

module _ {F : Type 0} ⦃py : Builtins F⦄ (machine : Machine) (config : ImageReviewConfig F) where
  -- A decision is recorded only if its gate lets it pass.
  pub take_decision-recorded :
      (decision : ImageReviewDecision) (code reason reviewer : String) (image : ProductImage)
      (s : Session) {t : Session}
      → take_decision machine config decision code reason reviewer image s ≡ recorded t
      → (gate machine config decision image s.images ≡ none)
        × (decided_session machine config decision code reason reviewer image s ≡ t)
  unfolding take_decision
  take_decision-recorded decision code reason reviewer image s {t} e =
      elim (Option-cases (gate machine config decision image s.images)) [
        | inl passes ↦
            let e' : recorded (decided_session machine config decision code reason reviewer image s)
                ≡ recorded t =
              rw (take_decision, passes) at e in
            (passes, recorded-injective e')
        | inr (refusal, stops) ↦
            let e' : stopped refusal ≡ recorded t = rw (take_decision, stops) at e in
            not_recorded e'
      ]

  check_texts-recorded :
      (d : ImageReviewDecision) (code reason reviewer : String) (image : ProductImage) (s : Session)
      {t : Session}
      → check_texts machine config d code reason reviewer image s ≡ recorded t
      → (code' : String) × (reason' : String) × (reviewer' : String) × (take_decision machine config
            d code' reason' reviewer' image s
          ≡ recorded t)
  unfolding check_texts
  check_texts-recorded d code reason reviewer image s e =
      elim (Option-cases (safe_text (machine.upper code) 80)) [
        | inl a ↦ not_recorded (rw (check_texts, a) at e)
        | inr (code', a) ↦ elim (Option-cases (safe_text reason 500)) [
          | inl b ↦ not_recorded (rw (check_texts, a, b) at e)
          | inr (reason', b) ↦ elim (Option-cases (safe_text reviewer 120)) [
            | inl c ↦ not_recorded (rw (check_texts, a, b, c) at e)
            | inr (reviewer', c) ↦ elim (Bool-cases (contains "@" reviewer')) [
              | inl at_sign ↦ not_recorded (rw (check_texts, a, b, c, at_sign) at e)
              | inr plain ↦ (code', reason', reviewer', rw (check_texts, a, b, c, plain) at e)
            ]
          ]
        ]
      ]

  -- A request is recorded only for an image that is there, and after its texts are checked.
  pub record_decision-recorded :
      (image_id : ℕ) (decision code reason reviewer : String) (s : Session) {t : Session}
      → record_decision machine config image_id decision code reason reviewer s ≡ recorded t
      → (image : ProductImage) × (d : ImageReviewDecision) × (code' : String) × (reason' : String)
        × (reviewer' : String) × (find_image image_id s.images ≡ some image)
        × (decision_of (machine.upper decision) ≡ some d)
        × (take_decision machine config d code' reason' reviewer' image s ≡ recorded t)
  unfolding record_decision
  record_decision-recorded image_id decision code reason reviewer s e =
      elim (Bool-cases (enabled machine "CATALOG_IMAGE_REVIEW_ENABLED")) [
        | inr off ↦ not_recorded (rw (record_decision, off) at e)
        | inl on ↦ elim (Bool-cases (enabled machine "CATALOG_WRITES_ENABLED")) [
          | inr shut ↦ not_recorded (rw (record_decision, on, shut) at e)
          | inl writes ↦ elim (Option-cases (find_image image_id s.images)) [
            | inl lost ↦ not_recorded (rw (record_decision, on, writes, lost) at e)
            | inr (image, there) ↦ elim (Option-cases (decision_of (machine.upper decision))) [
              | inl odd ↦ not_recorded (rw (record_decision, on, writes, there, odd) at e)
              | inr (d, known) ↦
                  let (code', reason', reviewer', taken) =
                    check_texts-recorded d code reason reviewer image s
                      (rw (record_decision, on, writes, there, known) at e) in
                  (image, d, code', reason', reviewer', there, known, taken)
            ]
          ]
        ]
      ]

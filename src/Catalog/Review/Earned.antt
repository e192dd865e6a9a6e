-- ===== src/Catalog/Review/Earned.antt =====
-- How an image comes to be approved in backend/app/catalog/image_review.py.
use mathlib.Core.Path.{subst}
use ai_repo.Prelude.{
  String, ◌≡◌, ◌⊎◌, refl, sym, ap, ◌∙◌, inl, inr, none, false, List, In, Option-cases,
}
use ai_repo.Runtime.{Builtins}
use ai_repo.Catalog.Images.{ProductImage, Machine, ImageReviewConfig}
use ai_repo.Catalog.Images.Evaluate.Acceptable.{IsFit}
use ai_repo.Catalog.Review.{
  ImageReviewDecision, approve, reject, request_changes, mark_duplicate, approve_primary,
  remove_primary, expire_rights, Session, old_primary, changed, audit,
}
use ai_repo.Catalog.Review.Decide.{gate, replaced, decided_image, decided_session, Step, decide}
use ai_repo.Catalog.Review.Sound.{In-put, find_image-In, old_primary-In}
use ai_repo.Catalog.Review.Steps.{differ}
use ai_repo.Catalog.Review.Recorded.{record_decision-recorded, take_decision-recorded}
use ai_repo.Catalog.Review.Gates.{gate-IsFit, primary_gate-IsFit}

module _ {F : Type 0} ⦃py : Builtins F⦄ (machine : Machine) (config : ImageReviewConfig F) where
  -- The image with this id was approved before, or was found fit.
  pub IsEarned : List ProductImage → ProductImage → Type 0
  IsEarned images i =
      (j : ProductImage) × In j images
      × (j.id ≡ i.id)
      × ((j.review_status ≡ "approved") ⊎ IsFit machine config images j)

  replaced-IsEarned :
      (decision : ImageReviewDecision) (reviewer : String) (image i : ProductImage) (s : Session)
      → In i (replaced machine config decision reviewer image s).images
      → i.review_status ≡ "approved"
      → IsEarned s.images i
  unfolding replaced audit IsEarned
  replaced-IsEarned approve_primary reviewer image i s m a =
      elim (Option-cases (old_primary image s.images)) [
        | inl e ↦ (i, rw (replaced, e) at m, refl, inl a)
        | inr (old, e) ↦
            let (k, _, _, approved, _) = old_primary-In image s.images e in
            elim (In-put (record old { is_primary = false }) i s.images
              (rw (replaced, e, audit) at m)) [
                | inl same ↦ (old, k, sym (ap (λ x. x.id) same), inl approved)
                | inr (k', _) ↦ (i, k', refl, inl a)
              ]
      ]
  replaced-IsEarned approve reviewer image i s m a = (i, m, refl, inl a)
  replaced-IsEarned reject reviewer image i s m a = (i, m, refl, inl a)
  replaced-IsEarned request_changes reviewer image i s m a = (i, m, refl, inl a)
  replaced-IsEarned mark_duplicate reviewer image i s m a = (i, m, refl, inl a)
  replaced-IsEarned remove_primary reviewer image i s m a = (i, m, refl, inl a)
  replaced-IsEarned expire_rights reviewer image i s m a = (i, m, refl, inl a)

  decided-IsEarned :
      (decision : ImageReviewDecision) (image : ProductImage) (images : List ProductImage)
      → In image images
      → gate machine config decision image images ≡ none
      → (decided_image machine config decision image).review_status ≡ "approved"
      → IsEarned images (decided_image machine config decision image)
  unfolding changed IsEarned decided_image
  decided-IsEarned approve image images m g a =
      (image, m, refl, inr (gate-IsFit machine config image images g))
  decided-IsEarned approve_primary image images m g a =
      (image, m, refl, inr (primary_gate-IsFit machine config image images g))
  decided-IsEarned remove_primary image images m g a = (image, m, refl, inl a)
  decided-IsEarned reject image images m g a = differ "rejected" "approved" refl a
  decided-IsEarned mark_duplicate image images m g a = differ "rejected" "approved" refl a
  decided-IsEarned expire_rights image images m g a = differ "rejected" "approved" refl a
  decided-IsEarned request_changes image images m g a = differ "pending" "approved" refl a

  -- After one recorded decision, an approved image was approved before, or its old version met every condition of the
  -- evaluation, in the session before the decision.
  pub Step-IsEarned :
      {s t : Session}
      → Step machine config s t
      → (i : ProductImage) → In i t.images
      → i.review_status ≡ "approved"
      → IsEarned s.images i
  unfolding decided_session audit decided_image
  Step-IsEarned {s} (decide image_id decision code reason reviewer e) i m a =
      let (image, d, code', reason', reviewer', there, known, taken) =
        record_decision-recorded machine config image_id decision code reason reviewer s e in
      let (passes, is_t) =
        take_decision-recorded machine config d code' reason' reviewer' image s taken in
      let (k, _) = find_image-In image_id s.images there in
      elim (In-put (decided_image machine config d image) i
        (replaced machine config d reviewer' image s).images (rw (← is_t) at m)) [
          | inl same ↦ subst (IsEarned s.images) (sym same) (
              decided-IsEarned d image s.images k passes (ap (λ x. x.review_status) (sym same) ∙ a))
          | inr (k', _) ↦ replaced-IsEarned d reviewer' image i s k' a
        ]

-- ===== src/Catalog/Review/Steps.antt =====
-- Every decision of backend/app/catalog/image_review.py keeps the images sound.
use ai_repo.Prelude.{
  String, ◌≡◌, refl, sym, ap, ◌∙◌, inl, inr, none, some, false, List, ◌==◌, eq_iff, In,
  Option-cases, arith,
}
use ai_repo.Runtime.{Builtins}
use ai_repo.Catalog.Images.{ProductImage, Machine, ImageReviewConfig}
use ai_repo.Catalog.Images.Evaluate.Acceptable.{HasNoRival}
use ai_repo.Catalog.Review.{
  ImageReviewDecision, approve, reject, request_changes, mark_duplicate, approve_primary,
  remove_primary, expire_rights, Session, put_image, old_primary, changed, audit,
}
use ai_repo.Catalog.Review.Decide.{
  decided_session, gate, replaced, decided_image, Step, Reach, decide, here, next,
}
use ai_repo.Catalog.Review.Sound.{
  IsSound, Fits, In-put, put_image-IsSound, find_image-In, old_primary-none, old_primary-In,
}
use ai_repo.Catalog.Review.Gates.{gate-IsFit}
use ai_repo.Catalog.Review.Recorded.{take_decision-recorded, record_decision-recorded}

-- Two texts that the test tells apart
pub differ : {P : Type 0} (s t : String) → (s == t) ≡ false → s ≡ t → P
differ s t f e = absurd (ground (arith, eq_iff s t))

-- The old primary image, no longer primary
cleared-IsSound :
    (images : List ProductImage) (image old : ProductImage)
    → IsSound images
    → old_primary image images ≡ some old
    → IsSound (put_image (record old { is_primary = false }) images)
      × HasNoRival (put_image (record old { is_primary = false }) images) image
cleared-IsSound images image old sound e =
    let (m, p, r, a, d) = old_primary-In image images e in
    let old' : ProductImage = record old { is_primary = false } in
    (
      put_image-IsSound images old' sound (record {
        product = sound.products old m;
        earned = sound.earned old m;
        no_rival = λ h. cc h.0;
      }),
      λ i k q primary approved. elim (In-put old' i images k) [
        | inl same ↦ cc (ap (λ x. x.is_primary) same)
        | inr (k', other) ↦
            absurd (other (sound.one_primary i old k' m (q ∙ sym p) (primary, approved) (r, a)))
      ],
    )

module _ {F : Type 0} ⦃py : Builtins F⦄ (machine : Machine) (config : ImageReviewConfig F) where
  replaced-IsSound :
      (decision : ImageReviewDecision) (reviewer : String) (image : ProductImage)
      (session : Session)
      → IsSound session.images
      → IsSound (replaced machine config decision reviewer image session).images
  unfolding replaced audit
  replaced-IsSound approve_primary reviewer image session sound =
      elim (Option-cases (old_primary image session.images)) [
        | inl e ↦ rw (replaced, e) sound
        | inr (old, e) ↦
            rw (replaced, e, audit) (cleared-IsSound session.images image old sound e).0
      ]
  replaced-IsSound approve reviewer image session sound = sound
  replaced-IsSound reject reviewer image session sound = sound
  replaced-IsSound request_changes reviewer image session sound = sound
  replaced-IsSound mark_duplicate reviewer image session sound = sound
  replaced-IsSound remove_primary reviewer image session sound = sound
  replaced-IsSound expire_rights reviewer image session sound = sound

  replaced-HasNoRival :
      (reviewer : String) (image : ProductImage) (session : Session)
      → IsSound session.images
      → HasNoRival (replaced machine config approve_primary reviewer image session).images image
  unfolding replaced audit
  replaced-HasNoRival reviewer image session sound =
      elim (Option-cases (old_primary image session.images)) [
        | inl e ↦ rw (replaced, e) (old_primary-none image session.images e)
        | inr (old, e) ↦
            rw (replaced, e, audit) (cleared-IsSound session.images image old sound e).1
      ]

  decided-Fits :
      (decision : ImageReviewDecision) (reviewer : String) (image : ProductImage)
      (session : Session)
      → IsSound session.images
      → In image session.images
      → gate machine config decision image session.images ≡ none
      → Fits
          (replaced machine config decision reviewer image session).images
          (decided_image machine config decision image)
  unfolding changed replaced decided_image
  decided-Fits approve reviewer image session sound m g = record {
    product = sound.products image m;
    earned = λ _. (refl, refl);
    no_rival = λ h.
        (gate-IsFit machine config image session.images g).no_rival h.0 (sound.products image m);
  }
  decided-Fits approve_primary reviewer image session sound m g = record {
    product = sound.products image m;
    earned = λ _. (refl, refl);
    no_rival = λ _. replaced-HasNoRival reviewer image session sound;
  }
  decided-Fits reject reviewer image session sound m g = record {
    product = sound.products image m;
    earned = differ "rejected" "approved" refl;
    no_rival = λ h. cc h.0;
  }
  decided-Fits mark_duplicate reviewer image session sound m g = record {
    product = sound.products image m;
    earned = differ "rejected" "approved" refl;
    no_rival = λ h. cc h.0;
  }
  decided-Fits request_changes reviewer image session sound m g = record {
    product = sound.products image m;
    earned = differ "pending" "approved" refl;
    no_rival = λ h. differ "pending" "approved" refl h.1;
  }
  decided-Fits remove_primary reviewer image session sound m g = record {
    product = sound.products image m;
    earned = sound.earned image m;
    no_rival = λ h. cc h.0;
  }
  decided-Fits expire_rights reviewer image session sound m g = record {
    product = sound.products image m;
    earned = differ "rejected" "approved" refl;
    no_rival = λ h. cc h.0;
  }

  -- One recorded decision keeps the images sound.
  pub Step-IsSound : {s t : Session} → Step machine config s t → IsSound s.images → IsSound t.images
  unfolding decided_session put_image decided_image
  Step-IsSound {s} {t} (decide image_id decision code reason reviewer e) sound =
      let (image, d, code', reason', reviewer', there, known, taken) =
        record_decision-recorded machine config image_id decision code reason reviewer s e in
      let (passes, is_t) =
        take_decision-recorded machine config d code' reason' reviewer' image s taken in
      let (m, _) = find_image-In image_id s.images there in
      rw (← is_t) (
        put_image-IsSound _ (decided_image machine config d image)
          (replaced-IsSound d reviewer' image s sound)
          (decided-Fits d reviewer' image s sound m passes))

  -- Whatever decisions are recorded, the images stay sound: ids are keys, no product has two approved primary images, and
  -- an approved image has approved rights and acceptable quality.
  pub Reach-IsSound :
      {s t : Session} → Reach machine config s t → IsSound s.images → IsSound t.images
  Reach-IsSound here sound = sound
  Reach-IsSound (next r step) sound = Step-IsSound step (Reach-IsSound r sound)

-- ===== src/Catalog/Review/Trail.antt =====
-- The audit records of backend/app/catalog/image_review.py tell how each image came to its statuses.
use ai_repo.Prelude.{
  ℕ, String, ◌≡◌, ◌≢◌, refl, sym, ap, ◌∙◌, inl, inr, Option, none, some, true, false, List, [], ◌∷◌,
  eqb, if◌then◌else◌, In, Bool-cases, Option-cases, arith, IfSome,
}
use ai_repo.Runtime.{Builtins}
use ai_repo.Catalog.Images.{ProductImage, Machine, ImageReviewConfig}
use ai_repo.Catalog.Review.{
  ImageReviewDecision, approve, reject, request_changes, mark_duplicate, approve_primary,
  remove_primary, expire_rights, Session, ProductImageReview, statuses_of, put_image, old_primary,
  changed, audit,
}
use ai_repo.Catalog.Review.Decide.{
  replaced, decided_image, decided_session, Step, Reach, decide, here, next,
}
use ai_repo.Catalog.Review.Sound.{In-put, find_image-In, old_primary-In}
use ai_repo.Catalog.Review.Recorded.{record_decision-recorded, take_decision-recorded}

-- The newest review of an image
abbrev pub latest : ℕ → List ProductImageReview → Option ProductImageReview
latest id [] = none
latest id (r ∷ reviews) = if eqb r.image_id id then some r else latest id reviews

-- Each review starts with the statuses that the review of the image before it has left.
abbrev pub IsChained : List ProductImageReview → Type 0
IsChained [] = Unit
IsChained (r ∷ reviews) =
    IfSome (latest r.image_id reviews) (λ q. q.new ≡ r.previous) × IsChained reviews

pub record IsTraced (session : Session) : Type 0 where
  pub chained : IsChained session.reviews
  -- The newest review of an image names its statuses.
  pub current :
      (i : ProductImage)
      → In i session.images
      → IfSome (latest i.id session.reviews) (λ r. r.new ≡ statuses_of i)

In-put_intro :
    (image j : ProductImage) (images : List ProductImage)
    → In j images
    → j.id ≢ image.id
    → In j (put_image image images)
unfolding put_image
In-put_intro image j [] m d = absurd m
In-put_intro image j (i ∷ images) (inl q) d =
    let d' : i.id ≢ image.id = λ e. d (ap (λ x. x.id) q ∙ e) in
    let miss : eqb i.id image.id ≡ false = ground arith in rw miss (inl q)
In-put_intro image j (i ∷ images) (inr m) d = elim (Bool-cases (eqb i.id image.id)) [
  | inl e ↦ rw e (inr (In-put_intro image j images m d))
  | inr e ↦ rw e (inr (In-put_intro image j images m d))
]

latest-ne :
    (r : ProductImageReview) (id : ℕ) (reviews : List ProductImageReview)
    → r.image_id ≢ id
    → latest id (r ∷ reviews) ≡ latest id reviews
latest-ne r id reviews d = ground arith

-- A review of an image that is changed in the same step
put_image-IsTraced :
    (images : List ProductImage) (image : ProductImage) (r : ProductImageReview)
    (reviews : List ProductImageReview)
    → IsTraced (record { images = images; reviews = reviews })
    → r.image_id ≡ image.id
    → r.new ≡ statuses_of image
    → IfSome (latest image.id reviews) (λ q. q.new ≡ r.previous)
    → IsTraced (record { images = put_image image images; reviews = r ∷ reviews })
put_image-IsTraced images image r reviews traced same new link = record {
  chained = (rw same link, traced.chained);
  current = λ i m. elim (In-put image i images m) [
    | inl e ↦
        let same_id : i.id ≡ image.id = ap (λ x. x.id) e in
        let hit : eqb r.image_id i.id ≡ true = ground arith in
        rw hit (new ∙ ap (λ x. statuses_of x) (sym e))
    | inr (m', d) ↦
        let miss : eqb r.image_id i.id ≡ false = ground arith in rw miss (traced.current i m')
  ];
}

-- The old primary image and its review
replaced-IsTraced_lem :
    (images : List ProductImage) (reviews : List ProductImageReview) (image old : ProductImage)
    (r : ProductImageReview)
    → IsTraced (record { images = images; reviews = reviews })
    → In image images
    → old_primary image images ≡ some old
    → r.image_id ≡ old.id
    → r.previous ≡ statuses_of old
    → r.new ≡ statuses_of old
    → IsTraced (record {
      images = put_image (record old { is_primary = false }) images;
      reviews = r ∷ reviews;
    })
      × In image (put_image (record old { is_primary = false }) images)
replaced-IsTraced_lem images reviews image old r traced m e same previous new =
    let (k, _, _, _, d) = old_primary-In image images e in
    let old' : ProductImage = record old { is_primary = false } in
    (
      put_image-IsTraced images old' r reviews traced same new (rw previous (traced.current old k)),
      In-put_intro old' image images m (λ q. d (sym q)),
    )

module _ {F : Type 0} ⦃py : Builtins F⦄ (machine : Machine) (config : ImageReviewConfig F) where
  replaced-IsTraced :
      (decision : ImageReviewDecision) (reviewer : String) (image : ProductImage) (s : Session)
      → IsTraced s
      → In image s.images
      → IsTraced (replaced machine config decision reviewer image s)
        × In image (replaced machine config decision reviewer image s).images
  unfolding replaced audit
  replaced-IsTraced approve_primary reviewer image s traced m =
      elim (Option-cases (old_primary image s.images)) [
        | inl e ↦ rw (replaced, e) (traced, m)
        | inr (old, e) ↦
            rw (replaced, e, audit)
              (replaced-IsTraced_lem s.images s.reviews image old _ traced m e refl refl refl)
      ]
  replaced-IsTraced approve reviewer image s traced m = (traced, m)
  replaced-IsTraced reject reviewer image s traced m = (traced, m)
  replaced-IsTraced request_changes reviewer image s traced m = (traced, m)
  replaced-IsTraced mark_duplicate reviewer image s traced m = (traced, m)
  replaced-IsTraced remove_primary reviewer image s traced m = (traced, m)
  replaced-IsTraced expire_rights reviewer image s traced m = (traced, m)

  decided_image-id :
      (decision : ImageReviewDecision) (image : ProductImage)
      → (decided_image machine config decision image).id ≡ image.id
  unfolding changed decided_image
  decided_image-id approve image = refl
  decided_image-id reject image = refl
  decided_image-id request_changes image = refl
  decided_image-id mark_duplicate image = refl
  decided_image-id approve_primary image = refl
  decided_image-id remove_primary image = refl
  decided_image-id expire_rights image = refl

  decided_session-IsTraced :
      (decision : ImageReviewDecision) (code reason reviewer : String) (image : ProductImage)
      (s : Session)
      → IsTraced s
      → In image s.images
      → IsTraced (decided_session machine config decision code reason reviewer image s)
  unfolding decided_session audit put_image decided_image
  decided_session-IsTraced decision code reason reviewer image s traced m =
      let (cleared, k) = replaced-IsTraced decision reviewer image s traced m in
      put_image-IsTraced _ (decided_image machine config decision image) _ _ cleared refl refl
        (rw (decided_image-id decision image) (cleared.current image k))

  Step-IsTraced : {s t : Session} → Step machine config s t → IsTraced s → IsTraced t
  Step-IsTraced {s} (decide image_id decision code reason reviewer e) traced =
      let (image, d, code', reason', reviewer', there, known, taken) =
        record_decision-recorded machine config image_id decision code reason reviewer s e in
      let (passes, is_t) =
        take_decision-recorded machine config d code' reason' reviewer' image s taken in
      let (m, _) = find_image-In image_id s.images there in
      rw (← is_t) (decided_session-IsTraced d code' reason' reviewer' image s traced m)

  -- Whatever decisions are recorded, the audit stays a chain: each review of an image starts with the statuses that the
  -- review of it before has left, and the newest names the statuses that the image has.
  pub Reach-IsTraced : {s t : Session} → Reach machine config s t → IsTraced s → IsTraced t
  Reach-IsTraced here traced = traced
  Reach-IsTraced (next r step) traced = Step-IsTraced step (Reach-IsTraced r traced)

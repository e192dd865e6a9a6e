-- ===== src/Catalog/Images/Evaluate/Acceptable.antt =====
-- What it means that the evaluation of backend/app/catalog/image_review.py finds an image acceptable.
use ai_repo.Prelude.{
  String, ◌≡◌, ◌≢◌, ◌↔◌, refl, sym, ap, ◌∙◌, inl, inr, Option, none, some, Bool, true, false, not,
  ◌&&◌, List, [], ◌∷◌, ℤ, eqb, ◌==◌, eq_iff, get_or, In, Bool-cases, any-eq-false_iff, bind-eq-some,
  concat-eq-nil_iff, arith,
}
use mathlib.Core.Option.{some-injective}
use ai_repo.Runtime.{Builtins}
use ai_repo.Catalog.Images.{
  ProductImage, Machine, ImageReviewConfig, ImageEvaluation, acceptable, supported_formats,
  source_types, url_result, has_text,
}
use ai_repo.Catalog.Images.Evaluate.{
  rights_of, checksum_of, category_of, sections_of, reasons_of, evaluation_of, evaluate_values,
}
use ai_repo.Catalog.Images.Sections.{sizes, has_primary, classify, dimension_part, aspect_part}
use ai_repo.Catalog.Images.Evaluate.Parts.{
  rights_part_iff, checksum_part_iff, source_part_iff, format_part_iff, file_size_part_iff,
  freshness_part_iff, dimension_part_iff, aspect_part_iff, duplicate_part_iff, url_duplicates_iff,
  IsKnown, IsOnlyOne, HasWeight, IsFresh, IsSized, IsShaped,
}
use ai_repo.Catalog.Images.Evaluate.Address.{url_part_iff}

classify_iff : (reasons : List String) → (classify reasons ≡ acceptable) ↔ (reasons ≡ [])
unfolding classify
classify_iff [] = (λ _. refl, λ _. refl)
classify_iff (r ∷ reasons) = ground arith

-- No other image is the approved primary image of the product.
abbrev pub HasNoRival : List ProductImage → ProductImage → Type 0
HasNoRival images image =
    (i : ProductImage)
    → In i images
    → i.product_id ≡ image.product_id
    → i.is_primary ≡ true
    → i.review_status ≡ "approved"
    → i.id ≡ image.id

pub has_primary_iff :
    (images : List ProductImage) (image : ProductImage)
    → (has_primary images image ≡ false) ↔ HasNoRival images image
unfolding has_primary
has_primary_iff images image =
    let test = λ (i : ProductImage).
      eqb i.product_id image.product_id
      && i.is_primary
      && i.review_status == "approved"
      && not (eqb i.id image.id) in
    (
      λ h i m p q r.
          let fails = (any-eq-false_iff test images).0 h i m in
          ground (arith, eq_iff i.review_status "approved"),
      λ h.
          (any-eq-false_iff test images).1
            (λ i m. ground (arith, eq_iff i.review_status "approved", h i m)),
    )

abbrev is_rivalled : List ProductImage → ProductImage → Bool
is_rivalled images image =
    image.is_primary && not (eqb image.product_id 0) && has_primary images image

is_rivalled_iff :
    (images : List ProductImage) (image : ProductImage)
    → (is_rivalled images image ≡ false)
      ↔ (image.is_primary ≡ true → image.product_id ≢ 0 → HasNoRival images image)
is_rivalled_iff images image = (
  λ h p q. (has_primary_iff images image).0 (ground arith),
  λ h. elim (Bool-cases image.is_primary) [
    | inl p ↦ elim (Bool-cases (eqb image.product_id 0)) [
      | inl z ↦ ground arith
      | inr z ↦ ground (arith, (has_primary_iff images image).1 (h p (ground arith)))
    ]
    | inr p ↦ ground arith
  ],
)

module _ {F : Type 0} ⦃py : Builtins F⦄ (machine : Machine) (config : ImageReviewConfig F) where
  size_iff :
      (category : String) (size : Option (ℤ × ℤ))
      → (((dimension_part machine config size).1 ≡ [])
          × ((aspect_part machine config category size).1 ≡ []))
        ↔ IsKnown size (λ s. IsSized machine config s × IsShaped machine config category s)
  unfolding aspect_part dimension_part
  size_iff category none = (λ h. cc, λ h. absurd h)
  size_iff category (some size) = (
    λ h. (
      (dimension_part_iff machine config (some size)).0 h.0,
      (aspect_part_iff machine config category size).0 h.1,
    ),
    λ h. (
      (dimension_part_iff machine config (some size)).1 h.0,
      (aspect_part_iff machine config category size).1 h.1,
    ),
  )

  -- All that an image must meet to be acceptable
  pub record IsFit (images : List ProductImage) (image : ProductImage) : Type 0 where
    -- the address is allowed,
    pub address :
        (reason : String) × (url_result machine config image.source_url image.storage_key
          ≡ some ("PASS", reason))
    pub rights : rights_of machine config image ≡ "APPROVED"
    -- sizes within the bounds, and a ratio that suits the category,
    pub size : IsKnown (sizes image.width image.height) (λ s.
        IsSized machine config s × IsShaped machine config (category_of machine config image) s)
    pub format : In (machine.upper (get_or image.format "None")) supported_formats
    pub weight : HasWeight machine config image.file_size
    pub checksum : checksum_of machine config image ≢ ""
    -- neither the checksum nor the address belong to another image,
    pub only_one : IsOnlyOne images image (checksum_of machine config image)
    pub only_address :
        has_text image.source_url ≡ true
        → (i : ProductImage) → In i images
        → i.source_url ≡ some (get_or image.source_url "")
        → i.id ≡ image.id
    pub source :
        In (machine.upper image.source_type) source_types
        × (machine.upper image.source_type ≢ "UNKNOWN")
    pub verified : IsFresh machine config image.verified_at
    -- and a primary image has no rival.
    pub no_rival : image.is_primary ≡ true → image.product_id ≢ 0 → HasNoRival images image

  evaluation_of-acceptable_iff :
      (images : List ProductImage) (image : ProductImage) (url : String × String)
      → ((evaluation_of machine config images image url).classification ≡ acceptable) ↔ (
          (reasons_of machine config images image url ≡ [])
          × (image.is_primary ≡ true → image.product_id ≢ 0 → HasNoRival images image))
  unfolding evaluation_of
  evaluation_of-acceptable_iff images image url =
      let clean_iff = classify_iff (reasons_of machine config images image url) in
      let rival_iff = is_rivalled_iff images image in
      let both : ((evaluation_of machine config images image url).classification ≡ acceptable) ↔ (
          (reasons_of machine config images image url ≡ []) × (is_rivalled images image ≡ false)) =
        ground arith in
      (λ h. ((both.0 h).0, rival_iff.0 (both.0 h).1), λ h. both.1 (h.0, rival_iff.1 h.1))

  reasons_of-eq-nil_iff :
      (images : List ProductImage) (image : ProductImage) {url : String × String}
      → url_result machine config image.source_url image.storage_key ≡ some url
      → ((reasons_of machine config images image url ≡ [])
          × (image.is_primary ≡ true → image.product_id ≢ 0 → HasNoRival images image))
        ↔ IsFit images image
  unfolding reasons_of sections_of
  reasons_of-eq-nil_iff images image {url} e =
      let each_iff = concat-eq-nil_iff (sections_of machine config images image url) in
      let size = sizes image.width image.height in
      let sized_iff = size_iff (category_of machine config image) size in
      let sum = checksum_of machine config image in
      let url_iff = url_part_iff machine config image.source_url image.storage_key e in
      (
        λ (h, rival).
            let p = each_iff.0 h in
            let has_sum = (checksum_part_iff sum).0 p.1.1.1.1.1.1.0 in
            record {
              address = (url.1, e ∙ ap some (λ i. (url_iff.0 p.0 i, url.1)));
              rights = (rights_part_iff _).0 p.1.0;
              size = sized_iff.0 (p.1.1.0, p.1.1.1.0);
              format = (format_part_iff machine config image.format).0 p.1.1.1.1.0;
              weight = (file_size_part_iff machine config image.file_size).0 p.1.1.1.1.1.0;
              checksum = has_sum;
              only_one =
                  (duplicate_part_iff machine config images image sum size has_sum).0
                    p.1.1.1.1.1.1.1.0;
              only_address = (url_duplicates_iff machine config images image).0 p.1.1.1.1.1.1.1.1.0;
              source = (source_part_iff _).0 p.1.1.1.1.1.1.1.1.1.0;
              verified =
                  (freshness_part_iff machine config image.verified_at).0 p.1.1.1.1.1.1.1.1.1.1.0;
              no_rival = rival;
            },
        λ fit. (
          each_iff.1 (
            url_iff.1 (ap (λ u. u.0) (some-injective _ _ (sym e ∙ fit.address.1))),
            (
              (rights_part_iff _).1 fit.rights,
              (
                (sized_iff.1 fit.size).0,
                (
                  (sized_iff.1 fit.size).1,
                  (
                    (format_part_iff machine config image.format).1 fit.format,
                    (
                      (file_size_part_iff machine config image.file_size).1 fit.weight,
                      (
                        (checksum_part_iff sum).1 fit.checksum,
                        (
                          (duplicate_part_iff machine config images image sum size fit.checksum).1
                              fit.only_one,
                          (
                            (url_duplicates_iff machine config images image).1 fit.only_address,
                            (
                              (source_part_iff _).1 fit.source,
                              (
                                (freshness_part_iff machine config image.verified_at).1
                                    fit.verified,
                                tt,
                              ),
                            ),
                          ),
                        ),
                      ),
                    ),
                  ),
                ),
              ),
            ),
          ),
          fit.no_rival,
        ),
      )

  pub evaluate-acceptable_iff :
      (images : List ProductImage) (image : ProductImage) {e : ImageEvaluation}
      → evaluate_values machine config images image ≡ some e
      → (e.classification ≡ acceptable) ↔ IsFit images image
  unfolding evaluate_values
  evaluate-acceptable_iff images image e =
      let (url, u, v) =
        bind-eq-some (url_result machine config image.source_url image.storage_key) _ e in
      let first = evaluation_of-acceptable_iff images image url in
      let fit_iff = reasons_of-eq-nil_iff images image u in
      rw (← some-injective _ _ v) (λ h. fit_iff.0 (first.0 h), λ h. first.1 (fit_iff.1 h))

  -- What may become primary is acceptable.
  pub eligible-acceptable :
      (images : List ProductImage) (image : ProductImage) {e : ImageEvaluation}
      → evaluate_values machine config images image ≡ some e
      → e.primary_eligible ≡ true
      → e.classification ≡ acceptable
  unfolding evaluate_values evaluation_of
  eligible-acceptable images image e ok =
      let (url, u, v) =
        bind-eq-some (url_result machine config image.source_url image.storage_key) _ e in
      let same = some-injective _ _ v in
      let ok' : (evaluation_of machine config images image url).primary_eligible ≡ true =
        rw (← same) at ok in
      rw (← same) (ground arith)

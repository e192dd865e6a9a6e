-- ===== src/Catalog/Images/Evaluate/Parts.antt =====
-- When the sections of `_evaluate_values` in backend/app/catalog/image_review.py have nothing against an image.
use ai_repo.Prelude.{
  ℕ, String, ◌≡◌, ◌≢◌, ◌≤◌, ◌↔◌, ◌⊎◌, refl, inl, inr, Option, none, some, true, false, not, ◌&&◌,
  List, [], ℤ, lt_ℤ, is_nonzero, eqb, ◌+◌, ◌*◌, eq_iff, any, elem_iff, get_or, In, Bool-cases,
  any-eq-false_iff, filter-eq-nil_iff, arith,
}
use ai_repo.Runtime.{Builtins}
use ai_repo.Text.{non_empty_iff}
use ai_repo.Catalog.Images.{
  ProductImage, Machine, ImageReviewConfig, supported_formats, source_types, has_text,
}
use ai_repo.Catalog.Images.Sections.{
  same_text, rights_part, checksum_part, source_part, matches, has_url_match, duplicate_part,
  url_duplicates, dimension_part, aspect_part, format_part, file_size_part, freshness_part,
}

pub rights_part_iff : (rights : String) → ((rights_part rights).1 ≡ []) ↔ (rights ≡ "APPROVED")
unfolding rights_part
rights_part_iff rights = ground (arith, eq_iff rights "APPROVED")

pub checksum_part_iff : (checksum : String) → ((checksum_part checksum).1 ≡ []) ↔ (checksum ≢ "")
unfolding checksum_part
checksum_part_iff checksum = ground (arith, non_empty_iff checksum)

pub source_part_iff :
    (source : String) → (source_part source ≡ []) ↔ (In source source_types × (source ≢ "UNKNOWN"))
unfolding source_part
source_part_iff source = ground (arith, elem_iff source source_types, eq_iff source "UNKNOWN")

same_text_iff : (o : Option String) (s : String) → (same_text o s ≡ true) ↔ (o ≡ some s)
same_text_iff none s = ground arith
same_text_iff (some t) s = ground (arith, eq_iff t s)

-- No other image of the list passes the test.
others_iff :
    (read : ProductImage → Option String) (images : List ProductImage) (image : ProductImage)
    (s : String)
    → (any (λ i. same_text (read i) s && not (eqb i.id image.id)) images ≡ false)
      ↔ ((i : ProductImage) → In i images → read i ≡ some s → i.id ≡ image.id)
others_iff read images image s = (
  λ h i m e.
      let passes =
        (any-eq-false_iff (λ i. same_text (read i) s && not (eqb i.id image.id)) images).0 h i m in
      ground (arith, same_text_iff (read i) s),
  λ h.
      (any-eq-false_iff (λ i. same_text (read i) s && not (eqb i.id image.id)) images).1
        (λ i m. ground (arith, same_text_iff (read i) s, h i m)),
)

-- The value is known, and meets the condition.
abbrev pub IsKnown : {A : Type 0} → Option A → (A → Type 0) → Type 0
IsKnown none P = ⊥
IsKnown (some a) P = P a

-- No other image has the checksum.
abbrev pub IsOnlyOne : List ProductImage → ProductImage → String → Type 0
IsOnlyOne images image checksum =
    (i : ProductImage) → In i images → i.checksum ≡ some checksum → i.id ≡ image.id

module _ {F : Type 0} ⦃py : Builtins F⦄ (machine : Machine) (config : ImageReviewConfig F) where
  pub format_part_iff :
      (format : Option String)
      → ((format_part machine config format).1 ≡ [])
        ↔ In (machine.upper (get_or format "None")) supported_formats
  unfolding format_part
  format_part_iff format =
      ground (arith, elem_iff (machine.upper (get_or format "None")) supported_formats)

  abbrev pub HasWeight : Option ℤ → Type 0
  HasWeight size =
      IsKnown size (λ n. (is_nonzero n ≡ true) × (lt_ℤ config.maximum_file_size n ≡ false))

  pub file_size_part_iff :
      (size : Option ℤ) → ((file_size_part machine config size).1 ≡ []) ↔ HasWeight size
  unfolding file_size_part
  file_size_part_iff none = ground arith
  file_size_part_iff (some n) = ground arith

  abbrev pub IsFresh : Option ℕ → Type 0
  IsFresh verified = IsKnown verified (λ t. machine.now ≤ t + config.freshness_days * 86400000000)

  pub freshness_part_iff :
      (verified : Option ℕ) → (freshness_part machine config verified ≡ []) ↔ IsFresh verified
  unfolding freshness_part
  freshness_part_iff none = ground arith
  freshness_part_iff (some t) = ground arith

  abbrev pub IsSized : ℤ × ℤ → Type 0
  IsSized (w, h) =
      (lt_ℤ w config.minimum_width ≡ false)
      × (lt_ℤ h config.minimum_height ≡ false)
      × (lt_ℤ config.maximum_width w ≡ false)
      × (lt_ℤ config.maximum_height h ≡ false)

  pub dimension_part_iff :
      (size : Option (ℤ × ℤ)) → ((dimension_part machine config size).1 ≡ []) ↔ IsKnown size IsSized
  unfolding dimension_part
  dimension_part_iff none = ground arith
  dimension_part_iff (some (w, h)) = ground arith

  -- Any ratio will do for a case; a GPU may be wide; the other ratios are configured.
  abbrev pub IsShaped : String → ℤ × ℤ → Type 0
  IsShaped category (w, h) =
      let ratio = py.div (py.of_int w) (py.of_int h) in
      (category ≢ "UNKNOWN")
      × ((category ≡ "CASE")
          ⊎ ((category ≡ "GPU") × (py.le ratio (py.literal 8 0) ≡ true))
          ⊎ ((py.le config.minimum_aspect_ratio ratio ≡ true)
              × (py.le ratio config.maximum_aspect_ratio ≡ true)))

  pub aspect_part_iff :
      (category : String) (size : ℤ × ℤ)
      → ((aspect_part machine config category (some size)).1 ≡ []) ↔ IsShaped category size
  unfolding aspect_part
  aspect_part_iff category (w, h) =
      ground (arith, eq_iff category "UNKNOWN", eq_iff category "CASE", eq_iff category "GPU")

  pub duplicate_part_iff :
      (images : List ProductImage) (image : ProductImage) (checksum : String)
      (size : Option (ℤ × ℤ))
      → checksum ≢ ""
      → ((duplicate_part machine images image checksum size).1 ≡ [])
        ↔ IsOnlyOne images image checksum
  unfolding duplicate_part matches
  duplicate_part_iff images image checksum size h =
      let found_iff =
        filter-eq-nil_iff (λ i. same_text i.checksum checksum && not (eqb i.id image.id)) images in
      let alone_iff = others_iff (λ i. i.checksum) images image checksum in
      let some_iff : ((duplicate_part machine images image checksum size).1 ≡ [])
          ↔ (matches images image checksum ≡ []) =
        ground (arith, non_empty_iff checksum) in
      (λ e. alone_iff.0 (found_iff.0 (some_iff.0 e)), λ k. some_iff.1 (found_iff.1 (alone_iff.1 k)))

  pub url_duplicates_iff :
      (images : List ProductImage) (image : ProductImage)
      → (url_duplicates images image ≡ []) ↔ (
          has_text image.source_url ≡ true
          → (i : ProductImage) → In i images
          → i.source_url ≡ some (get_or image.source_url "")
          → i.id ≡ image.id)
  unfolding url_duplicates has_url_match
  url_duplicates_iff images image =
      let alone_iff = others_iff (λ i. i.source_url) images image (get_or image.source_url "") in
      elim (Bool-cases (has_text image.source_url)) [
        | inl e ↦
            rw (url_duplicates, e)
              (λ h _. alone_iff.0 (ground arith), λ h. ground (arith, alone_iff.1 (h refl)))
        | inr e ↦ rw (url_duplicates, e) (λ _ t. absurd (ground arith), λ _. refl)
      ]

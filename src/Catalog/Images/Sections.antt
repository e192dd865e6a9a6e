-- ===== src/Catalog/Images/Sections.antt =====
-- The sections of `_evaluate_values` in backend/app/catalog/image_review.py, one function to a section. A finding is the
-- result of the section and what it appends to `reasons`.
use ai_repo.Prelude.{
  ℕ, String, Option, none, some, Bool, true, false, not, ◌&&◌, ◌||◌, List, [], ◌∷◌, ℤ, pos, lt_ℤ,
  eq_ℤ, is_nonzero, ltb, eqb, ◌+◌, ◌*◌, ◌==◌, if◌then◌else◌, any, all, filter, elem, is_empty,
  get_or,
}
use ai_repo.Runtime.{Builtins}
use ai_repo.Text.{non_empty}
use ai_repo.Catalog.Images.{
  ProductImage, Machine, ImageReviewConfig, Classification, acceptable, review_required, rejected,
  supported_formats, source_types, hard_failures, has_text,
}

abbrev pub Finding : Type 0
Finding = String × List String

unfoldable pub rights_part : String → Finding
rights_part rights = if rights == "APPROVED" then ("PASS", []) else (
  "REVIEW",
  (if rights == "REJECTED"
        then "RIGHTS_REJECTED"
        else if rights == "EXPIRED"
        then "RIGHTS_EXPIRED"
        else "RIGHTS_PENDING")
      ∷ [],
)

-- Both sizes, where both are there and not 0
unfoldable pub sizes : Option ℤ → Option ℤ → Option (ℤ × ℤ)
sizes (some w) (some h) = if is_nonzero w && is_nonzero h then some (w, h) else none
sizes (some w) none = none
sizes none h = none

unfoldable pub checksum_part : String → Finding
checksum_part checksum =
    if non_empty checksum then ("PASS", []) else ("REVIEW", "CHECKSUM_MISSING" ∷ [])

unfoldable pub source_part : String → List String
source_part source_type =
    if not (elem source_type source_types) || source_type == "UNKNOWN"
    then "SOURCE_UNKNOWN" ∷ []
    else []

unfoldable pub url_part : String × String → List String
url_part (status, reason) = if status == "FAIL" then reason ∷ [] else []

-- `str(x.format or "").upper()`
abbrev pub format_key : Machine → ProductImage → String
format_key py image = py.upper (get_or image.format "")

-- `o == s`, as SQL compares: a missing value equals nothing
abbrev pub same_text : Option String → String → Bool
same_text none s = false
same_text (some t) s = t == s

-- The other images with this checksum: the query of `matches`
unfoldable pub matches : List ProductImage → ProductImage → String → List ProductImage
matches images image checksum =
    filter (λ i. same_text i.checksum checksum && not (eqb i.id image.id)) images

unfoldable pub has_url_match : List ProductImage → ProductImage → Bool
has_url_match images image =
    any (λ i. same_text i.source_url (get_or image.source_url "") && not (eqb i.id image.id)) images

abbrev pub is_size : Option ℤ → Option ℤ → Bool
is_size (some a) (some b) = eq_ℤ a b
is_size none b = false
is_size (some a) none = false

-- `(item.width, item.height, item.format) != (width_value, height_value, format)`; a size that is missing counts as 0
unfoldable pub is_conflict : Machine → ProductImage → Option (ℤ × ℤ) → ProductImage → Bool
is_conflict py image size item =
    let (w, h) = get_or size (pos 0, pos 0) in
    not (
      is_size item.width (some w)
      && is_size item.height (some h)
      && format_key py item == format_key py image)

unfoldable pub duplicate_part :
    Machine → List ProductImage → ProductImage → String → Option (ℤ × ℤ) → Finding
unfolding matches is_conflict
duplicate_part py images image checksum size =
    let found = matches images image checksum in
    if not (non_empty checksum)
    then ("UNKNOWN", [])
    else if is_empty found
    then ("NONE", [])
    else let same_product = all (λ i. eqb i.product_id image.product_id) found in
      let conflict : List String =
        if any (is_conflict py image size) found then "METADATA_CONFLICT" ∷ [] else [] in
      if same_product
      then ("SAME_PRODUCT", "DUPLICATE_SAME_PRODUCT" ∷ conflict)
      else ("CROSS_PRODUCT", "DUPLICATE_CROSS_PRODUCT" ∷ conflict)

unfoldable pub url_duplicates : List ProductImage → ProductImage → List String
unfolding has_url_match
url_duplicates images image =
    if has_text image.source_url && has_url_match images image then "DUPLICATE_URL" ∷ [] else []

-- Another approved primary image of the product: the last query
unfoldable pub has_primary : List ProductImage → ProductImage → Bool
has_primary images image =
    any
      (λ i.
        eqb i.product_id image.product_id
        && i.is_primary
        && i.review_status == "approved"
        && not (eqb i.id image.id))
      images

unfoldable pub classify : List String → Classification
classify reasons =
    if any (λ reason. elem reason hard_failures) reasons
    then rejected
    else if is_empty reasons
    then acceptable
    else review_required

abbrev pub is_acceptable : Classification → Bool
is_acceptable acceptable = true
is_acceptable review_required = false
is_acceptable rejected = false

abbrev pub action_for : Classification → String
action_for acceptable = "APPROVE"
action_for review_required = "REQUEST_CHANGES"
action_for rejected = "REJECT"

abbrev pub quality_for : Classification → String
quality_for acceptable = "acceptable"
quality_for review_required = "pending"
quality_for rejected = "rejected"

module _ {F : Type 0} ⦃py : Builtins F⦄ (machine : Machine) (config : ImageReviewConfig F) where
  unfoldable pub dimension_part : Option (ℤ × ℤ) → Finding
  dimension_part none = ("REVIEW", "DIMENSIONS_MISSING" ∷ [])
  dimension_part (some (w, h)) =
      if lt_ℤ w config.minimum_width || lt_ℤ h config.minimum_height
      then ("FAIL", "DIMENSIONS_TOO_SMALL" ∷ [])
      else if lt_ℤ config.maximum_width w || lt_ℤ config.maximum_height h
      then ("FAIL", "DIMENSIONS_TOO_LARGE" ∷ [])
      else ("PASS", [])

  unfoldable pub aspect_part : String → Option (ℤ × ℤ) → Finding
  aspect_part category none = ("REVIEW", [])
  aspect_part category (some (w, h)) =
      let ratio = py.div (py.of_int w) (py.of_int h) in
      if category == "UNKNOWN"
      then ("REVIEW", "CATEGORY_UNKNOWN" ∷ [])
      else if category == "CASE"
      then ("PASS", [])
      else if category == "GPU" && py.le ratio (py.literal 8 0)
      then ("PASS", [])
      else if py.le config.minimum_aspect_ratio ratio && py.le ratio config.maximum_aspect_ratio
      then ("PASS", [])
      else ("REVIEW", "ASPECT_RATIO_REVIEW" ∷ [])

  unfoldable pub format_part : Option String → Finding
  format_part format =
      if elem (machine.upper (get_or format "None")) supported_formats
      then ("PASS", [])
      else ("REVIEW", "FORMAT_UNSUPPORTED" ∷ [])

  unfoldable pub file_size_part : Option ℤ → Finding
  file_size_part none = ("REVIEW", "FILE_SIZE_MISSING" ∷ [])
  file_size_part (some n) =
      if not (is_nonzero n)
      then ("REVIEW", "FILE_SIZE_MISSING" ∷ [])
      else if lt_ℤ config.maximum_file_size n
      then ("FAIL", "FILE_SIZE_EXCEEDED" ∷ [])
      else ("PASS", [])

  -- `timestamp < now - timedelta(days=freshness_days)`, in microseconds
  unfoldable pub freshness_part : Option ℕ → List String
  freshness_part none = "VERIFICATION_STALE" ∷ []
  freshness_part (some timestamp) =
      if ltb (timestamp + config.freshness_days * 86400000000) machine.now
      then "VERIFICATION_STALE" ∷ []
      else []

-- ===== src/Catalog/Images.antt =====
-- The metadata of product images and its evaluation: backend/app/catalog/image_review.py, for images that the catalogue
-- holds (`ImageReviewService.evaluate_image`), and the columns of backend/app/catalog/models.py that it reads.
pub mod Sections
pub mod Evaluate
pub mod Config
use ai_repo.Prelude.{
  ℕ, String, Option, none, some, Bool, true, false, not, ◌&&◌, ◌||◌, List, [], ◌∷◌, ◌++◌, ℤ, pos,
  lt_ℤ, eq_ℤ, is_nonzero, ltb, eqb, ◌+◌, ◌*◌, ◌==◌, if◌then◌else◌, any, all, filter, elem, is_empty,
  get_or, Raises, ◌>>=◌,
}
use ai_repo.Runtime.{Builtins}
use ai_repo.Text.{strip, non_empty, letters, has_control, starts_with}
use ai_repo.UserBuilds.Payload.{unique}

pub record ProductImage : Type 0 where
  pub id : ℕ
  pub product_id : ℕ
  -- of the product
  pub category : Option String
  pub source_url : Option String
  pub storage_key : Option String
  pub source_type : String
  pub width : Option ℤ
  pub height : Option ℤ
  pub format : Option String
  pub file_size : Option ℤ
  pub checksum : Option String
  pub rights_status : String
  pub quality_status : String
  pub review_status : String
  pub is_primary : Bool
  -- in microseconds, as `updated_at` and `now`
  pub verified_at : Option ℕ
  pub updated_at : ℕ

-- What `urlparse` finds
pub record Url : Type 0 where
  pub scheme : String
  pub hostname : Option String
  pub username : Option String
  pub password : Option String

-- The environment of the process, the clock, and text functions of Python that are left open
pub record Machine : Type 0 where
  pub getenv : String → Option String
  pub lower : String → String
  pub upper : String → String
  pub parse_int : String → Option ℤ
  -- `none` for the ValueError
  pub parse_url : String → Option Url
  pub now : ℕ

pub record ImageReviewConfig (F : Type 0) : Type 0 where
  pub minimum_width : ℤ
  pub minimum_height : ℤ
  pub maximum_width : ℤ
  pub maximum_height : ℤ
  pub maximum_file_size : ℤ
  pub minimum_aspect_ratio : F
  pub maximum_aspect_ratio : F
  pub freshness_days : ℕ
  pub maximum_images_per_product : ℕ
  pub allowed_hosts : List String

pub data Classification : Type 0 where
  acceptable review_required rejected : Classification

pub record ImageEvaluation : Type 0 where
  pub image_id : ℕ
  pub product_id : ℕ
  pub classification : Classification
  pub results : List (String × String)
  pub reason_codes : List String
  pub recommended_action : String
  pub primary_eligible : Bool

abbrev pub true_values : List String
true_values = "1" ∷ "true" ∷ "yes" ∷ []

abbrev pub supported_formats : List String
supported_formats = "JPEG" ∷ "JPG" ∷ "PNG" ∷ "WEBP" ∷ "AVIF" ∷ []

abbrev pub source_types : List String
source_types =
    "MANUFACTURER" ∷ "AUTHORIZED_DISTRIBUTOR" ∷ "AUTHORIZED_RETAILER" ∷ "PARTNER_FEED"
    ∷ "MANUAL_UPLOAD" ∷ "SYNTHETIC_FIXTURE" ∷ "UNKNOWN" ∷ []

abbrev pub hard_failures : List String
hard_failures =
    "URL_INVALID" ∷ "DIMENSIONS_TOO_SMALL" ∷ "DIMENSIONS_TOO_LARGE" ∷ "FILE_SIZE_EXCEEDED"
    ∷ "RIGHTS_REJECTED" ∷ "RIGHTS_EXPIRED" ∷ []

-- `_enabled`
unfoldable pub enabled : Machine → String → Bool
enabled py name = elem (py.lower (get_or (py.getenv name) "false")) true_values

-- Python's truth value of an optional text
abbrev pub has_text : Option String → Bool
has_text none = false
has_text (some s) = non_empty s

-- `_url_result`: the status and the reason; `none` where `urlparse` raises
module _ {F : Type 0} (py : Machine) (config : ImageReviewConfig F) where
  unfoldable pub remote_result : Url → String × String
  unfolding enabled
  remote_result url =
      if not (elem url.scheme ("https" ∷ "http" ∷ []))
        || not (has_text url.hostname)
        || has_text url.username
        || has_text url.password
      then ("FAIL", "URL_INVALID")
      else if url.scheme == "http" && not (enabled py "CATALOG_IMAGE_ALLOW_HTTP")
      then ("FAIL", "URL_INVALID")
      else if elem (py.lower (get_or url.hostname "")) config.allowed_hosts
      then ("PASS", "APPROVED_HOST")
      else ("FAIL", "HOST_NOT_APPROVED")

  unfoldable pub url_result : Option String → Option String → Raises (String × String)
  unfolding remote_result strip letters has_control starts_with
  url_result source_url storage_key =
      let candidate = strip (get_or source_url "") in
      if has_text storage_key
        && starts_with "/" (get_or storage_key "")
        && not (non_empty candidate)
      then some ("PASS", "LOCAL_REFERENCE")
      else if not (non_empty candidate) || ltb 2048 (letters candidate) || has_control candidate
      then some ("FAIL", "URL_INVALID")
      else if starts_with "/" candidate
      then some ("PASS", "LOCAL_REFERENCE")
      else (py.parse_url candidate >>= λ url. some (remote_result url))

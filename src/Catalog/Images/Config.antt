-- ===== src/Catalog/Images/Config.antt =====
-- `ImageReviewConfig` of backend/app/catalog/image_review.py, as it is read from the environment.
use ai_repo.Prelude.{
  ℕ, String, none, some, ◌&&◌, ◌||◌, List, ℤ, pos, negsuc, lt_ℤ, if◌then◌else◌, filter, map, get_or,
  Raises, ◌>>=◌,
}
use ai_repo.Runtime.{Builtins}
use ai_repo.Text.{strip, split, non_empty}
use ai_repo.Catalog.Images.{Machine, ImageReviewConfig}

-- The days and the number of images are at least 1
abbrev natural : ℤ → ℕ
natural (pos n) = n
natural (negsuc n) = 0

module _ (machine : Machine) where
  -- `_bounded_int`; `none` for the ValueError
  unfoldable pub bounded_int : String → (default low high : ℤ) → Raises ℤ
  bounded_int name default low high =
      elim (machine.getenv name) [ none ↦ some default | some s ↦ machine.parse_int s ] >>= λ value.
      if lt_ℤ value low || lt_ℤ high value then none else some value

  unfoldable pub hosts : List String
  unfolding split strip
  hosts =
      map (λ host. machine.lower (strip host))
        (filter (λ host. non_empty (strip host))
          (split "," (get_or (machine.getenv "CATALOG_IMAGE_ALLOWED_HOSTS") "")))

module _ {F : Type 0} ⦃py : Builtins F⦄ (machine : Machine) where
  -- `_bounded_float`
  unfoldable pub bounded_float : String → (default low high : F) → Raises F
  bounded_float name default low high =
      elim (machine.getenv name) [ none ↦ some default | some s ↦ py.parse s ] >>= λ value.
      if py.le low value && py.le value high then some value else none

  -- `__post_init__`
  unfoldable pub post_init : ImageReviewConfig F → Raises (ImageReviewConfig F)
  post_init config =
      if lt_ℤ config.maximum_width config.minimum_width
        || lt_ℤ config.maximum_height config.minimum_height
      then none
      else if py.lt config.maximum_aspect_ratio config.minimum_aspect_ratio
      then none
      else some config

  -- `ImageReviewConfig()`
  unfoldable pub review_config : Raises (ImageReviewConfig F)
  unfolding bounded_int bounded_float hosts post_init
  review_config =
      bounded_int machine "CATALOG_IMAGE_MIN_WIDTH" (pos 320) (pos 1) (pos 20000) >>= λ min_width.
      bounded_int machine "CATALOG_IMAGE_MIN_HEIGHT" (pos 240) (pos 1) (pos 20000) >>= λ min_height.
      bounded_int machine "CATALOG_IMAGE_MAX_WIDTH" (pos 4096) (pos 1) (pos 30000) >>= λ max_width.
      bounded_int machine "CATALOG_IMAGE_MAX_HEIGHT" (pos 4096) (pos 1) (pos 30000)
      >>= λ max_height.
          bounded_int machine "CATALOG_IMAGE_MAX_FILE_SIZE" (pos 5000000) (pos 1) (pos 100000000)
          >>= λ max_file_size.
              bounded_float "CATALOG_IMAGE_MIN_ASPECT_RATIO" (py.literal 5 1) (py.literal 5 2)
                (py.literal 20 0)
              >>= λ min_ratio.
                  bounded_float "CATALOG_IMAGE_MAX_ASPECT_RATIO" (py.literal 4 0) (py.literal 5 2)
                    (py.literal 20 0)
                  >>= λ max_ratio.
                      bounded_int machine "CATALOG_IMAGE_VERIFICATION_DAYS" (pos 180) (pos 1)
                        (pos 3650)
                      >>= λ days.
                          bounded_int machine "CATALOG_IMAGE_MAX_PER_PRODUCT" (pos 12) (pos 1)
                            (pos 100)
                          >>= λ per_product. post_init (record {
                            minimum_width = min_width;
                            minimum_height = min_height;
                            maximum_width = max_width;
                            maximum_height = max_height;
                            maximum_file_size = max_file_size;
                            minimum_aspect_ratio = min_ratio;
                            maximum_aspect_ratio = max_ratio;
                            freshness_days = natural days;
                            maximum_images_per_product = natural per_product;
                            allowed_hosts = hosts machine;
                          })

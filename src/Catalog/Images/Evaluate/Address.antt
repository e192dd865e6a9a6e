-- ===== src/Catalog/Images/Evaluate/Address.antt =====
-- The verdict on an address, in `_url_result` of backend/app/catalog/image_review.py.
use ai_repo.Prelude.{
  String, ◌≡◌, ◌↔◌, ◌⊎◌, refl, inl, inr, Option, some, [], eq_iff, get_or, arith, Option-cases,
}
use ai_repo.Runtime.{Builtins}
use ai_repo.Text.{strip}
use ai_repo.Catalog.Images.{Url, Machine, ImageReviewConfig, url_result, remote_result}
use ai_repo.Catalog.Images.Sections.{url_part}

module _ {F : Type 0} ⦃py : Builtins F⦄ (machine : Machine) (config : ImageReviewConfig F) where
  remote_result-status :
      (url : Url)
      → ((remote_result machine config url).0 ≡ "PASS")
        ⊎ ((remote_result machine config url).0 ≡ "FAIL")
  unfolding remote_result
  remote_result-status url = ground arith

  url_result-status :
      (source_url storage_key : Option String) {url : String × String}
      → url_result machine config source_url storage_key ≡ some url
      → (url.0 ≡ "PASS") ⊎ (url.0 ≡ "FAIL")
  unfolding url_result
  url_result-status source_url storage_key {url} e =
      elim (Option-cases (machine.parse_url (strip (get_or source_url "")))) [
        | inl raises ↦ ground (arith, raises)
        | inr (parsed, p) ↦ ground (arith, p, remote_result-status parsed)
      ]

  -- An address with no reason against it has passed.
  pub url_part_iff :
      (source_url storage_key : Option String) {url : String × String}
      → url_result machine config source_url storage_key ≡ some url
      → (url_part url ≡ []) ↔ (url.0 ≡ "PASS")
  unfolding url_part
  url_part_iff source_url storage_key {url} e = elim (url_result-status source_url storage_key e) [
    | inl p ↦ (λ _. p, λ p. rw (url_part, p) refl)
    | inr f ↦ (λ h. ground (arith, eq_iff url.0 "FAIL"), λ p. rw (url_part, p) refl)
  ]

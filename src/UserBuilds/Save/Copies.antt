-- ===== src/UserBuilds/Save/Copies.antt =====
-- What `duplicate_build` of backend/app/services/user_builds.py keeps of a saved build.
use ai_repo.Prelude.{
  arith, String, ◌≡◌, refl, Option, some, true, false, List, is_empty, ◌≤◌, leb, length,
}
use ai_repo.UserBuilds.Payload.{object, Printing, StoredBuild, get, component_ids_of}
use ai_repo.UserBuilds.Payload.Unique.{IsUnique, unique-unique}
use ai_repo.Text.{◌⧺◌, letters}
use ai_repo.UserBuilds.Payload.Clean.{IsClean, strip_fields-clean}
use ai_repo.UserBuilds.Save.Stored.{IsStorable, normalized-IsStorable}
use ai_repo.UserBuilds.Save.{
  SavedBuildCreateRequest, BuildRepository, normalized, save_build, validated, copy_request,
  duplicate_build, summary_warnings, warning_summary_of,
}

-- The request asks for a copy of the build.
pub record IsCopy {F : Type 0} (original : StoredBuild F) (request : SavedBuildCreateRequest F)
    : Type 0 where
  pub payload : request.build_payload ≡ original.build_payload
  pub components : request.component_ids ≡ original.component_ids
  pub title : request.title ≡ some (original.title ⧺ " Copy")
  pub price : request.total_price_sar ≡ original.total_price_sar
  pub unmarked : request.favorite ≡ false

module _ {F : Type 0} (py : Printing F) where
  -- The copy's request goes through, and what is handed on still asks for the copy.
  normalized-IsCopy :
      (original : StoredBuild F) (user_id guest_id : Option String) {more : List String}
      → IsClean false (object original.build_payload)
      → IsUnique original.component_ids
      → is_empty original.component_ids ≡ false
      → summary_warnings py (get "summary" original.build_payload) ≡ some more
      → (handed : SavedBuildCreateRequest F) × (normalized py
            (copy_request original user_id guest_id)
          ≡ some handed)
        × IsCopy original handed
  unfolding normalized warning_summary_of copy_request component_ids_of
  normalized-IsCopy original user_id guest_id clean distinct some_id warned =
      rw (normalized, warning_summary_of, warned)
        (
          _,
          refl,
          record {
            payload = strip_fields-clean py original.build_payload clean;
            components = rw some_id (unique-unique original.component_ids distinct);
            title = refl;
            price = refl;
            unmarked = refl;
          },
        )

module _ {F S : Type 0} (py : Printing F) (repository : BuildRepository F S) where
  -- Whatever the repository does: where it finds a build under the id, with at most 120 letters in its
  -- title and " Copy", at most 30 warnings, no blocked key in its payload, distinct component ids and
  -- at least one, and with warnings in the payload's summary that can be iterated over, then
  -- duplicating it raises nothing, and the repository is handed a request for a copy, with the same
  -- payload, component ids and price, that can be stored.
  pub duplicate-saves :
      (build_id : String) (user_id guest_id : Option String) (state : S) {original : StoredBuild F}
      {more : List String}
      → repository.get_build build_id state ≡ some original
      → letters (original.title ⧺ " Copy") ≤ 120
      → length original.warning_summary ≤ 30
      → IsClean false (object original.build_payload)
      → IsUnique original.component_ids
      → is_empty original.component_ids ≡ false
      → summary_warnings py (get "summary" original.build_payload) ≡ some more
      → (handed : SavedBuildCreateRequest F) × (duplicate_build py repository build_id user_id
            guest_id state
          ≡ some (some (repository.save_build handed state)))
        × IsCopy original handed
        × IsStorable handed
  unfolding save_build duplicate_build validated copy_request
  duplicate-saves build_id user_id guest_id state {original} there_ short few clean distinct some_id
        warned =
      let (handed, n, copied) =
        normalized-IsCopy py original user_id guest_id clean distinct some_id warned in
      let fits : leb (letters (original.title ⧺ " Copy")) 120 ≡ true = ground arith in
      let not_many : leb (length original.warning_summary) 30 ≡ true = ground arith in
      (
        handed,
        rw (duplicate_build, there_, validated, fits, not_many, save_build, n) refl,
        copied,
        normalized-IsStorable py (copy_request original user_id guest_id) n,
      )

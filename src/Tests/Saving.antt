-- ===== src/Tests/Saving.antt =====
-- Saving and duplicating builds (backend/app/services/user_builds.py): a repository as a list, and a concrete run.
use ai_repo.Prelude.{
  String, ◌≡◌, refl, ap, Option, some, none, true, List, [], ◌∷◌, arith, if◌then◌else◌, get_or,
  ◌==◌, ◌>>=◌,
}
use ai_repo.Runtime.{Milli}
use ai_repo.Domain.{text}
use ai_repo.Text.{◌⧺◌, letters}
use ai_repo.UserBuilds.Payload.{
  Json, scalar, items, object, nil, cons, end, field, StoredBuild, get, unique, is_blocked,
  strip_fields, strip_entry, public_product_id, component_ids_of, price_snapshot_ids_of, texts_at,
}
use ai_repo.UserBuilds.Save.{
  SavedBuildCreateRequest, BuildRepository, normalized, warning_summary_of, summary_warnings,
  iterate, get_list, save_build, duplicate_build,
}
use ai_repo.UserBuilds.Save.Stored.{IsStorable, normalized-IsStorable}
use ai_repo.UserBuilds.Save.Copies.{IsCopy, duplicate-saves}
use ai_repo.Tests.SavedBuilds.{printing, is_true_text, str_text}

-- Each build has one letter more in its id than the build before it.
new_id : List (StoredBuild Milli) → String
new_id [] = "build-"
new_id (x ∷ xs) = new_id xs ⧺ "i"

find_build : String → List (StoredBuild Milli) → Option (StoredBuild Milli)
find_build id [] = none
find_build id (x ∷ xs) = if x.build_id == id then some x else find_build id xs

abbrev row_of : String → SavedBuildCreateRequest Milli → StoredBuild Milli
row_of id r = record {
  build_id = id;
  user_id = r.user_id;
  guest_id = r.guest_id;
  title = get_or r.title "Gaming Build";
  region = r.region;
  created_at = none;
  updated_at = none;
  build_mode = r.build_mode;
  total_price_sar = r.total_price_sar;
  confidence_level = r.confidence_level;
  warning_summary = r.warning_summary;
  component_ids = r.component_ids;
  price_snapshot_ids = r.price_snapshot_ids;
  build_summary = r.build_summary;
  build_payload = r.build_payload;
  share_slug = "0a1b2c3d4e";
  public_visibility = r.public_visibility;
  favorite = r.favorite;
}

abbrev builds : BuildRepository Milli (List (StoredBuild Milli))
builds = record {
  save_build = λ r rows. (row_of (new_id rows) r, row_of (new_id rows) r ∷ rows);
  get_build = find_build;
}

abbrev part : Json Milli
part =
    object (
      field "product_id" (scalar (text "p-1"))
        (field "price_snapshot_id" (scalar (text "s-1")) end))

abbrev request : SavedBuildCreateRequest Milli
request = record {
  user_id = some "u-1";
  guest_id = none;
  title = some "Quiet";
  region = "SA";
  build_mode = "gaming";
  total_price_sar = none;
  confidence_level = "low";
  warning_summary = "old PSU" ∷ "old PSU" ∷ [];
  component_ids = [];
  price_snapshot_ids = [];
  build_summary = end;
  build_payload = field "components" (items (cons part (cons part nil))) (
      field "summary"
        (object (field "missing_data_warnings" (items (cons (scalar (text "no length")) nil)) end))
        end);
  public_visibility = true;
  favorite = true;
}

abbrev handed : SavedBuildCreateRequest Milli
handed = record request {
  warning_summary = "old PSU" ∷ "no length" ∷ [];
  component_ids = "p-1" ∷ [];
  price_snapshot_ids = "s-1" ∷ [];
  build_payload =
      field "components"
        (items (
          cons (object (field "product_id" (scalar (text "p-1")) end))
            (cons (object (field "product_id" (scalar (text "p-1")) end)) nil)))
        (field "summary"
          (object
            (field "missing_data_warnings" (items (cons (scalar (text "no length")) nil)) end))
          end);
}

normalized-request : normalized printing request ≡ some handed
unfolding normalized warning_summary_of summary_warnings iterate get_list component_ids_of
    price_snapshot_ids_of texts_at get unique strip_fields strip_entry is_blocked public_product_id
    is_true_text str_text
normalized-request = refl

normalized-IsStorable_example : IsStorable handed
normalized-IsStorable_example = normalized-IsStorable printing request normalized-request

save_build-request :
    save_build printing builds request []
    ≡ some (row_of "build-" handed, row_of "build-" handed ∷ [])
unfolding save_build new_id
save_build-request = ap (λ o. o >>= λ r. some (builds.save_build r [])) normalized-request

handed-IsStorable : IsStorable handed
handed-IsStorable = normalized-IsStorable printing request normalized-request

abbrev rows : List (StoredBuild Milli)
rows = row_of "build-" handed ∷ []

duplicate-saves_example :
    (copy : SavedBuildCreateRequest Milli) × (duplicate_build printing builds "build-"
        (some "u-2")
        none
        rows
      ≡ some (some (builds.save_build copy rows)))
    × IsCopy (row_of "build-" handed) copy
    × IsStorable copy
unfolding letters find_build summary_warnings iterate get_list get is_true_text str_text
duplicate-saves_example =
    duplicate-saves printing builds "build-" (some "u-2") none rows
      {original = row_of "build-" handed} {more = "no length" ∷ []} refl (omega arith) (omega arith)
      handed-IsStorable.payload handed-IsStorable.components refl refl

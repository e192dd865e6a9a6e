-- ===== src/UserBuilds/Save.antt =====
-- Saving and duplicating a build, in backend/app/services/user_builds.py.
pub mod Stored
pub mod Copies
use Prim.Native.Char.{Char}
use ai_repo.Prelude.{
  ℕ, String, Option, none, some, Bool, true, false, List, [], ◌∷◌, ◌++◌, take, length, leb, ◌&&◌,
  ◌+◌, if◌then◌else◌, Raises, ◌>>=◌, get_or, ◌==◌,
}
use ai_repo.Domain.{text}
use ai_repo.Text.{◌⧺◌, letters}
use ai_repo.UserBuilds.Watchlist.{or_text}
use ai_repo.UserBuilds.Payload.{
  Json, Jsons, Fields, null, scalar, items, object, nil, cons, end, field, Printing, get, unique,
  StoredBuild, strip_fields, component_ids_of, price_snapshot_ids_of,
}

pub record SavedBuildCreateRequest (F : Type 0) : Type 0 where
  pub user_id : Option String
  pub guest_id : Option String
  pub title : Option String
  pub region : String
  pub build_mode : String
  pub total_price_sar : Option F
  pub confidence_level : String
  pub warning_summary : List String
  pub component_ids : List String
  pub price_snapshot_ids : List String
  pub build_summary : Fields F
  pub build_payload : Fields F
  pub public_visibility : Bool
  pub favorite : Bool

module _ {F : Type 0} where
  -- `for item in value`: a text gives its characters and an object its keys; `none` where it raises
  abbrev texts : String → List (Json F)
  texts String.[] = []
  texts (String.◌∷◌ c s) = scalar (text (String.◌∷◌ c String.[])) ∷ texts s

  abbrev keys : Fields F → List (Json F)
  keys end = []
  keys (field k v fields) = scalar (text k) ∷ keys fields

  abbrev members : Jsons F → List (Json F)
  members nil = []
  members (cons x xs) = x ∷ members xs

  unfoldable pub iterate : Json F → Raises (List (Json F))
  iterate null = none
  iterate (scalar (text s)) = some (texts s)
  iterate (scalar s) = none
  iterate (items xs) = some (members xs)
  iterate (object fields) = some (keys fields)

  -- `summary.get(key, [])`: only a missing key gives the empty list
  unfoldable pub get_list : String → Fields F → Json F
  get_list key end = items nil
  get_list key (field k v fields) = if k == key then v else get_list key fields

  -- What `SavedBuildCreateRequest(…)` checks; `none` where it raises
  unfoldable pub validated : SavedBuildCreateRequest F → Raises (SavedBuildCreateRequest F)
  unfolding letters
  validated request =
      if leb (letters (get_or request.title "")) 120 && leb (length request.warning_summary) 30
      then some request
      else none

module _ {F : Type 0} (py : Printing F) where
  -- `str(item) for item in … if item`
  abbrev printed : List (Json F) → List String
  printed [] = []
  printed (x ∷ xs) = let rest = printed xs in if py.is_true x then py.str x ∷ rest else rest

  -- The warnings of the summary: `none` where one of the two values is no iterable
  unfoldable pub summary_warnings : Json F → Raises (List String)
  unfolding iterate get_list
  summary_warnings (object summary) = iterate (get_list "warning_summary" summary) >>= λ given.
      iterate (get_list "missing_data_warnings" summary) >>= λ missing.
      some (printed given ++ printed missing)
  summary_warnings v = some []

  -- `_warning_summary`
  unfoldable pub warning_summary_of : List String → Fields F → Raises (List String)
  unfolding summary_warnings get unique
  warning_summary_of given payload =
      summary_warnings (get "summary" payload) >>= λ more. some (take 20 (unique (given ++ more)))

  -- The request that `save_build` hands to the repository
  unfoldable pub normalized : SavedBuildCreateRequest F → Raises (SavedBuildCreateRequest F)
  unfolding warning_summary_of component_ids_of price_snapshot_ids_of strip_fields
  normalized request =
      warning_summary_of request.warning_summary request.build_payload >>= λ warnings.
      some (record request {
        component_ids = component_ids_of py request.component_ids request.build_payload;
        price_snapshot_ids =
            price_snapshot_ids_of py request.price_snapshot_ids request.build_payload;
        warning_summary = warnings;
        build_payload = strip_fields py false request.build_payload request.build_payload;
      })

-- The graph repository: S is the state of the database.
pub record BuildRepository (F S : Type 0) : Type 0 where
  pub save_build : SavedBuildCreateRequest F → S → StoredBuild F × S
  pub get_build : String → S → Option (StoredBuild F)

module _ {F : Type 0} where
  -- The request that `duplicate_build` makes of the original
  unfoldable pub copy_request :
      StoredBuild F → Option String → Option String → SavedBuildCreateRequest F
  copy_request original user_id guest_id = record {
    user_id = or_text user_id original.user_id;
    guest_id = or_text guest_id original.guest_id;
    title = some (original.title ⧺ " Copy");
    region = original.region;
    build_mode = original.build_mode;
    total_price_sar = original.total_price_sar;
    confidence_level = original.confidence_level;
    warning_summary = original.warning_summary;
    component_ids = original.component_ids;
    price_snapshot_ids = original.price_snapshot_ids;
    build_summary = original.build_summary;
    build_payload = original.build_payload;
    public_visibility = original.public_visibility;
    favorite = false;
  }

module _ {F S : Type 0} (py : Printing F) (repository : BuildRepository F S) where
  -- `save_build` of the service
  unfoldable pub save_build : SavedBuildCreateRequest F → S → Raises (StoredBuild F × S)
  unfolding normalized
  save_build request state = normalized py request >>= λ r. some (repository.save_build r state)

  -- `duplicate_build`: some none where there is no such build
  unfoldable pub duplicate_build :
      String → Option String → Option String → S → Raises (Option (StoredBuild F × S))
  unfolding copy_request validated save_build
  duplicate_build build_id user_id guest_id state = elim (repository.get_build build_id state) [
    | none ↦ some none
    | some original ↦ validated (copy_request original user_id guest_id) >>= λ request.
        save_build request state >>= λ copy. some (some copy)
  ]

-- ===== src/Tests/SavedBuilds.antt =====
-- Saved builds of backend/app/services/user_builds.py: concrete runs.
use ai_repo.Prelude.{
  ℕ, String, ◌≡◌, refl, inl, Option, some, none, Bool, true, false, List, [], ◌∷◌, In, All,
}
use ai_repo.Runtime.{Milli, milli_builtins, Milli-IsOrdered}
use ai_repo.Domain.{text}
use ai_repo.Text.{non_empty}
use ai_repo.UserBuilds.Payload.{
  Json, Fields, null, scalar, items, object, nil, cons, end, field, Printing, get, is_blocked,
  public_product_id, strip_entry, strip_public_fields, strip_fields, StoredBuild,
}
use ai_repo.UserBuilds.Payload.Clean.{IsClean, strip-IsClean}
use ai_repo.UserBuilds.Compare.{Metric, comparison_metrics, confidence_rank}
use ai_repo.UserBuilds.Compare.Flags.{IsFlagged, comparison_metrics-IsFlagged}
use ai_repo.UserBuilds.Watchlist.{
  WatchlistItem, WatchStatus, ProductDetail, IsCurrent, list_watchlist, list_watchlist-IsCurrent,
}

unfoldable pub is_true_text : Json Milli → Bool
is_true_text null = false
is_true_text (scalar (text s)) = non_empty s
is_true_text v = true

unfoldable pub str_text : Json Milli → String
str_text (scalar (text s)) = s
str_text v = ""

abbrev pub printing : Printing Milli
printing = record { is_true = is_true_text; str = str_text; lower = λ s. s }

abbrev part_fields : Fields Milli
part_fields = field "product_id" (scalar (text "p-77")) (
    field "category" (scalar (text "cpu cooler"))
      (field "price_snapshot_id" (scalar (text "s-1")) end))

abbrev payload : Fields Milli
payload =
    field "components" (items (cons (object part_fields) nil))
      (field "api_key" (scalar (text "k")) end)

stripped :
    strip_fields printing true payload payload
    ≡ field "components"
        (items (
          cons
            (object (
              field "product_id"
                (scalar (text "public-cpu-cooler"))
                (field "category" (scalar (text "cpu cooler")) end)))
            nil))
        end
unfolding strip_public_fields strip_entry is_blocked public_product_id get is_true_text str_text
    ai_repo.Text.replace
stripped = refl

strip-IsClean_example : IsClean true (strip_public_fields printing true (object payload))
strip-IsClean_example = strip-IsClean printing true (object payload)

abbrev saved : String → ℕ → List String → StoredBuild Milli
saved id price notes = record {
  build_id = id;
  user_id = some "u-1";
  guest_id = none;
  title = id;
  region = "SA";
  created_at = none;
  updated_at = none;
  build_mode = "gaming";
  total_price_sar = some price;
  confidence_level = "medium";
  warning_summary = notes;
  component_ids = "p-77" ∷ [];
  price_snapshot_ids = "s-1" ∷ [];
  build_summary = end;
  build_payload = payload;
  share_slug = "0a1b2c3d4e";
  public_visibility = true;
  favorite = false;
}

abbrev compared : List (StoredBuild Milli)
compared = saved "a" 4000 ("old PSU" ∷ []) ∷ saved "b" 5000 [] ∷ []

abbrev first_metric : Metric Milli
first_metric = record {
  build_id = "a";
  title = "a";
  total_price_sar = some 4000;
  confidence_level = "medium";
  warning_count = 1;
  cheapest = true;
  safest = false;
  strongest = true;
  more_upgradeable = false;
}

first_of_two : In first_metric (comparison_metrics printing compared)
unfolding comparison_metrics confidence_rank get is_true_text
first_of_two = inl refl

comparison_metrics-IsFlagged_example :
    (b : StoredBuild Milli) × In b compared × IsFlagged compared b first_metric
comparison_metrics-IsFlagged_example =
    comparison_metrics-IsFlagged printing Milli-IsOrdered compared (refl, (refl, tt)) first_metric
      first_of_two

abbrev watched : WatchlistItem Milli
watched = record {
  item_id = "w-1";
  product_id = "p-77";
  product_name = none;
  region = "SA";
  vendor = none;
  target_price_sar = some 90000;
  last_seen_price = some 99000;
  current_price_sar = none;
  last_price_change = none;
  status = WatchStatus.tracking;
}

abbrev price_book : String → String → Option (ProductDetail Milli)
price_book product region = some (record {
  name = some "Cooler";
  current_recommended_vendor = some "shop";
  current_recommended_price = none;
  current_best_price = some 85000;
  lowest_market_price = some 80000;
})

list_watchlist-IsCurrent_example : All IsCurrent (list_watchlist (some price_book) (watched ∷ []))
list_watchlist-IsCurrent_example = list_watchlist-IsCurrent (some price_book) (watched ∷ [])

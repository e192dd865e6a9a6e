-- ===== src/UserBuilds/Compare.antt =====
-- `_comparison_metrics` and `_comparison_highlights` of backend/app/services/user_builds.py. The texts
-- that a metric copies from the summary and the payload are left out.
pub mod Counts
pub mod Prices
pub mod Flags
use ai_repo.Prelude.{
  ℕ, String, Option, none, some, Bool, true, false, List, [], ◌∷◌, ◌++◌, map, somes, length,
  if◌then◌else◌, is_empty, ltb, eqb, ◌==◌,
}
use ai_repo.Runtime.{Builtins, min_from}
use ai_repo.Text.{◌⧺◌}
use ai_repo.UserBuilds.Payload.{Json, Fields, object, get, Printing, StoredBuild}

-- `BuildComparisonMetric`
pub record Metric (F : Type 0) : Type 0 where
  pub build_id : String
  pub title : String
  pub total_price_sar : Option F
  pub confidence_level : String
  pub warning_count : ℕ
  pub cheapest : Bool
  pub safest : Bool
  pub strongest : Bool
  pub more_upgradeable : Bool

-- `_confidence_rank`
unfoldable pub confidence_rank : String → ℕ
confidence_rank value =
    if value == "low" then 1 else if value == "medium" then 2 else if value == "high" then 3 else 0

note_of : Option String → String → List String
note_of none s = []
note_of (some title) s = (title ⧺ s) ∷ []

-- `min((…), default=0)` and `max((…), default=0)` of counts
least_from : ℕ → List ℕ → ℕ
least_from best [] = best
least_from best (x ∷ xs) = least_from (if ltb x best then x else best) xs

unfoldable pub least : List ℕ → ℕ
unfolding least_from
least [] = 0
least (x ∷ xs) = least_from x xs

greatest_from : ℕ → List ℕ → ℕ
greatest_from best [] = best
greatest_from best (x ∷ xs) = greatest_from (if ltb best x then x else best) xs

unfoldable pub greatest : List ℕ → ℕ
unfolding greatest_from
greatest [] = 0
greatest (x ∷ xs) = greatest_from x xs

module _ {F : Type 0} where
  abbrev pub warnings : StoredBuild F → ℕ
  warnings b = length b.warning_summary

  abbrev pub rank : StoredBuild F → ℕ
  rank b = confidence_rank b.confidence_level

  abbrev pub prices : List (StoredBuild F) → List F
  prices builds = somes (map (λ (b : StoredBuild F). b.total_price_sar) builds)

module _ {F : Type 0} ⦃py : Builtins F⦄ where
  -- `min(priced) if priced else None`
  unfoldable pub cheapest_price : List F → Option F
  cheapest_price [] = none
  cheapest_price (x ∷ xs) = some (min_from x xs)

  -- `build.total_price_sar == cheapest_price if cheapest_price is not None else False`
  abbrev pub same_price : Option F → Option F → Bool
  same_price price none = false
  same_price none (some cheapest) = false
  same_price (some price) (some cheapest) = py.eq price cheapest

module _ {F : Type 0} ⦃py : Builtins F⦄ (print : Printing F) where
  -- `isinstance(explanation, dict) and explanation.get("upgrade_path")`
  abbrev pub has_upgrade_path : Json F → Bool
  has_upgrade_path (object fields) = print.is_true (get "upgrade_path" fields)
  has_upgrade_path other = false

  abbrev pub metric_of : Option F → ℕ → ℕ → StoredBuild F → Metric F
  metric_of cheapest fewest best b = record {
    build_id = b.build_id;
    title = b.title;
    total_price_sar = b.total_price_sar;
    confidence_level = b.confidence_level;
    warning_count = warnings b;
    cheapest = same_price b.total_price_sar cheapest;
    safest = eqb (warnings b) fewest;
    strongest = eqb (rank b) best;
    more_upgradeable = has_upgrade_path (get "explanation" b.build_payload);
  }

  -- `_comparison_metrics`
  unfoldable pub comparison_metrics : List (StoredBuild F) → List (Metric F)
  unfolding cheapest_price least greatest
  comparison_metrics builds =
      map
        (metric_of (cheapest_price (prices builds)) (least (map warnings builds))
          (greatest (map rank builds)))
        builds

module _ {F : Type 0} where
  first_title : (Metric F → Bool) → List (Metric F) → Option String
  first_title p [] = none
  first_title p (m ∷ ms) = let rest = first_title p ms in if p m then some m.title else rest

  -- `_comparison_highlights`
  unfoldable pub comparison_highlights : List (Metric F) → List String
  unfolding first_title note_of
  comparison_highlights ms =
      let notes =
        note_of (first_title (λ (m : Metric F). m.cheapest) ms) " is the cheapest saved option."
        ++ note_of (first_title (λ (m : Metric F). m.safest) ms)
            " has the fewest visible warnings." in
      if is_empty notes
      then "Saved builds are close enough that component-level warnings should decide." ∷ []
      else notes

-- ===== src/Pricing/Validate.antt =====
-- `PriceQualityValidator.validate_offer` of backend/app/services/pricing_quality.py.
use ai_repo.Prelude.{
  String, Option, none, some, Bool, false, not, ◌&&◌, ◌||◌, List, [], ◌∷◌, ◌++◌, pos, ltb, eqb,
  ◌==◌, if◌then◌else◌, elem, is_empty, length, concat, map,
}
use ai_repo.Domain.{lookup, text}
use ai_repo.Text.{non_empty, letters, ◌⧺◌}
use ai_repo.Runtime.{Builtins, zero_float, truthy, min_of}
use ai_repo.UserBuilds.Payload.{Json, scalar, Printing, get, unique}
use ai_repo.Pricing.{PriceOffer, DataQualityReport, flatten_specs, as_float}
use ai_repo.Pricing.Tables.{
  Window, Market, price_limits, spec_limits, markets, standalone_types, identity_categories,
}

abbrev pub note_if : Bool → String → List String
note_if b note = if b then note ∷ [] else []

module _ {F : Type 0} ⦃py : Builtins F⦄ where
  abbrev pub outside : F → F × F → Bool
  outside x (low, high) = py.lt x low || py.lt high x

  -- One value among the specs
  unfoldable pub spec_part : String × Json F → List String
  spec_part (key, value) = elim (lookup key spec_limits) [
    | none ↦ []
    | some limits ↦ elim (as_float value) [
      | none ↦ ("corrupted_" ⧺ key) ∷ []
      | some number ↦ note_if (outside number limits) ("impossible_" ⧺ key)
    ]
  ]

  unfoldable pub specs_part : List (String × Json F) → List String
  specs_part entries = concat (map spec_part entries)

  abbrev pub is_text : String → Json F → Bool
  is_text s (scalar (text t)) = t == s
  is_text s _ = false

  -- The window of a market for a currency
  abbrev pub window_in : Market F → (currency : String) → Option (Window F)
  window_in market currency =
      if currency == "USD"
      then some market.usd
      else if currency == "SAR"
      then some market.sar
      else none

module _ {F : Type 0} ⦃py : Builtins F⦄ (printing : Printing F) (offer : PriceOffer F) where
  unfoldable pub standalone_part : List String
  standalone_part = elim (lookup offer.category standalone_types) [
    | none ↦ []
    | some (product_type, reason) ↦
        note_if (not (is_text product_type (get "product_type" offer.specs))) reason
  ]

  unfoldable pub limits_part : List String
  limits_part = elim (lookup offer.category price_limits) [
    | none ↦ []
    | some (low, high) ↦
        note_if (offer.currency == "USD" && py.lt offer.price low)
          "impossible_price_below_category_floor"
        ++ note_if (offer.currency == "USD" && py.lt high offer.price)
            "impossible_price_above_category_ceiling"
  ]

  -- `str(offer.product.specs.get(name) or "")`
  abbrev pub spec_text : String → String
  spec_text name =
      let value = get name offer.specs in if printing.is_true value then printing.str value else ""

  -- The market window of the category, the currency and the family, with its market
  unfoldable pub window_of : Option (Market F × Window F)
  window_of = elim (lookup offer.category markets) [
    | none ↦ none
    | some market ↦ elim (window_in market offer.currency) [
      | none ↦ none
      | some window ↦
          if spec_text market.key_name == market.family then some (market, window) else none
    ]
  ]

  unfoldable pub window_part : List String
  window_part = elim window_of [
    | none ↦ []
    | some (market, window) ↦
        note_if (outside offer.price (window.hard_low, window.hard_high))
          ("suspicious_price_outside_" ⧺ market.label ⧺ "_hard_bounds")
  ]

  unfoldable pub window_flags : List String
  window_flags = elim window_of [
    | none ↦ []
    | some (market, window) ↦
        if py.lt offer.price window.normal_low
        then ("suspicious_price_below_" ⧺ market.label ⧺ "_market_range")
          ∷ (note_if (offer.category == "PSU") "suspicious_low_price" ++ "unusually_low_price" ∷ [])
        else if py.lt window.normal_high offer.price
        then ("suspicious_price_above_" ⧺ market.label ⧺ "_market_range")
          ∷ "unusually_high_price"
          ∷ []
        else []
  ]

  -- What is appended to `rejected`, in order
  unfoldable pub rejections : List (List String)
  rejections =
      note_if (offer.category == "Accessories" && py.lt offer.trust_score (py.literal 8 1))
        "unclassified_low_trust_listing"
      ∷ standalone_part
      ∷ note_if (not (non_empty offer.model) || ltb (letters offer.normalized_model) 3)
          "malformed_model_name"
      ∷ note_if (elem offer.category identity_categories && not (non_empty offer.model))
          "incomplete_identity_model"
      ∷ note_if
          (not (offer.currency == py.upper offer.currency) || not (eqb (letters offer.currency) 3))
          "missing_or_invalid_currency"
      ∷ note_if (py.le offer.price zero_float) "impossible_non_positive_price"
      ∷ limits_part
      ∷ window_part
      ∷ specs_part (flatten_specs offer.specs)
      ∷ []

  abbrev pub seller_flags : List String
  seller_flags =
      if offer.seller_type == "marketplace"
      then "marketplace_listing" ∷ []
      else note_if (offer.seller_type == "third_party") "third_party_seller"

  abbrev pub condition_flags : List String
  condition_flags =
      if offer.listing_condition == "unknown"
      then "condition_unknown" ∷ "price_requires_review" ∷ []
      else []

  -- Against the price before, if there is one
  unfoldable pub change_flags : Option F → List String
  change_flags none = []
  change_flags (some previous) =
      let change = py.div (py.sub offer.price previous) previous in
      if not (truthy previous && py.lt zero_float previous)
      then []
      else if py.le change (py.sub zero_float (py.literal 7 1))
      then "suspicious_price_drop_over_70_percent" ∷ []
      else note_if (py.le (py.literal 2 0) change) "suspicious_price_spike_over_200_percent"

  unfoldable pub all_flags : Option F → List String
  all_flags previous_price =
      offer.flags
      ++ window_flags
      ++ seller_flags
      ++ condition_flags
      ++ note_if (py.le (py.literal 65 2) offer.marketplace_risk_score) "price_requires_review"
      ++ change_flags previous_price
      ++ note_if (offer.availability == "unknown") "availability_unknown"
      ++ note_if (py.lt offer.trust_score (py.literal 5 1)) "low_trust_source"

  unfoldable pub validate_offer : Option F → DataQualityReport F
  validate_offer previous_price =
      let rejected = concat rejections in
      let flags = all_flags previous_price in
      let score =
        py.add (py.mul (py.of_int (pos (length flags))) (py.literal 18 2))
          (py.mul (py.of_int (pos (length rejected))) (py.literal 34 2)) in
      record {
        accepted = is_empty rejected;
        rejected_reasons = unique rejected;
        flags = unique flags;
        anomaly_score = py.round (min_of (py.literal 1 0) score) 3;
      }

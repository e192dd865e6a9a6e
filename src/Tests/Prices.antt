-- ===== src/Tests/Prices.antt =====
-- Runs of the price validator of backend/app/services/pricing_quality.py, in exact thousandths.
use ai_repo.Prelude.{ℕ, String, ◌≡◌, ◌↔◌, refl, none, some, Bool, true, false, [], ◌∷◌, pos}
use ai_repo.Domain.{lookup, text, int}
use ai_repo.Text.{letters}
use ai_repo.Runtime.{Milli, milli_builtins}
use ai_repo.Access.{set_item}
use ai_repo.UserBuilds.Payload.{Json, scalar, object, end, field, get, Printing, unique}
use ai_repo.Pricing.{PriceOffer, flatten_from, as_float}
use ai_repo.Pricing.Tables.{
  price_limits, spec_limits, markets, standalone_types, identity_categories,
}
use ai_repo.Pricing.Validate.{
  spec_part, specs_part, standalone_part, limits_part, window_of, window_part, rejections,
  validate_offer,
}
use ai_repo.Pricing.Accepted.{IsAcceptable, validate_offer-accepted_iff}

-- Only texts are printed here.
abbrev printing : Printing Milli
printing = record { is_true = is_true; str = str; lower = λ s. s }
  where
    is_true : Json Milli → Bool
    is_true (scalar (text s)) = true
    is_true _ = false

    str : Json Milli → String
    str (scalar (text s)) = s
    str _ = ""

abbrev cpu : ℕ → PriceOffer Milli
cpu price = record {
  category = "CPU";
  model = "Ryzen 7 7800X3D";
  normalized_model = "RYZEN_7_7800X3D";
  specs = field "product_type" (scalar (text "standalone_cpu")) (
      field "cpu_model_key" (scalar (text "AMD_RYZEN_7_7800X3D"))
        (field "power" (object (field "tdp_w" (scalar (int (pos 120))) end)) end));
  price = price;
  currency = "USD";
  seller_type = "retailer";
  listing_condition = "new";
  marketplace_risk_score = 0;
  availability = "in_stock";
  trust_score = 900;
  flags = [];
}

accepted_runs : (validate_offer printing (cpu 350000) none).accepted ≡ true
unfolding validate_offer rejections standalone_part limits_part window_part window_of specs_part
    spec_part flatten_from set_item as_float lookup get standalone_types price_limits spec_limits
    markets identity_categories letters
accepted_runs = refl

rejected_runs :
    (validate_offer printing (cpu 150000) none).rejected_reasons
    ≡ "suspicious_price_outside_cpu_model_hard_bounds" ∷ []
unfolding validate_offer rejections standalone_part limits_part window_part window_of specs_part
    spec_part flatten_from set_item as_float lookup get standalone_types price_limits spec_limits
    markets identity_categories letters unique
rejected_runs = refl

validate_offer-accepted_iff_example :
    ((validate_offer printing (cpu 350000) (some 400000)).accepted ≡ true)
    ↔ IsAcceptable printing (cpu 350000)
validate_offer-accepted_iff_example =
    validate_offer-accepted_iff printing (cpu 350000) (some 400000)

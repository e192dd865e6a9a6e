-- ===== src/Pricing.antt =====
-- What a price offer must meet: backend/app/services/pricing_quality.py. A float is any type with the
-- operations of Builtins; the fields of an offer that the validator does not read are left out.
pub mod Tables
pub mod Validate
pub mod Sections
pub mod Accepted
use ai_repo.Prelude.{ℕ, String, Option, none, some, Bool, true, false, List, [], ◌∷◌, pos}
use ai_repo.Domain.{Scalar, flag, int, real, text}
use ai_repo.Runtime.{Builtins}
use ai_repo.Access.{set_item}
use ai_repo.UserBuilds.Payload.{Json, null, scalar, items, object, Fields, end, field}

pub record PriceOffer (F : Type 0) : Type 0 where
  pub category : String
  pub model : String
  pub normalized_model : String
  pub specs : Fields F
  pub price : F
  pub currency : String
  pub seller_type : String
  pub listing_condition : String
  pub marketplace_risk_score : F
  pub availability : String
  pub trust_score : F
  pub flags : List String

pub record DataQualityReport (F : Type 0) : Type 0 where
  pub accepted : Bool
  pub rejected_reasons : List String
  pub flags : List String
  pub anomaly_score : F

-- `flattened.update(...)`
module _ {V : Type 0} where
  abbrev pub update_items : List (String × V) → List (String × V) → List (String × V)
  update_items [] entries = entries
  update_items ((key, value) ∷ rest) entries = update_items rest (set_item key value entries)

module _ {F : Type 0} where
  -- `_flatten_specs`: the loop over a dictionary, with what is flattened before it
  unfoldable pub flatten_from : Fields F → List (String × Json F) → List (String × Json F)
  unfolding set_item
  flatten_from end flattened = flattened
  flatten_from (field key (object inner) rest) flattened =
      flatten_from rest (update_items (flatten_from inner []) flattened)
  flatten_from (field key null rest) flattened = flatten_from rest (set_item key null flattened)
  flatten_from (field key (scalar s) rest) flattened =
      flatten_from rest (set_item key (scalar s) flattened)
  flatten_from (field key (items xs) rest) flattened =
      flatten_from rest (set_item key (items xs) flattened)

  abbrev pub flatten_specs : Fields F → List (String × Json F)
  flatten_specs specs = flatten_from specs []

module _ {F : Type 0} ⦃py : Builtins F⦄ where
  -- `_as_float`: `float(value)`, `none` for the exceptions
  unfoldable pub as_float : Json F → Option F
  as_float null = none
  as_float (scalar (flag true)) = some (py.literal 1 0)
  as_float (scalar (flag false)) = some (py.literal 0 0)
  as_float (scalar (int n)) = some (py.of_int n)
  as_float (scalar (real x)) = some x
  as_float (scalar (text s)) = py.parse s
  as_float (items xs) = none
  as_float (object fields) = none

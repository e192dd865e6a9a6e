-- ===== src/Pricing/Accepted.antt =====
-- Which offers `validate_offer` of backend/app/services/pricing_quality.py accepts.
use ai_repo.Prelude.{
  String, ◌≡◌, ◌≢◌, ◌≤◌, refl, ◌↔◌, ◌⊎◌, inl, inr, Option, true, false, not, ◌&&◌, ◌||◌, List, [],
  ◌∷◌, ltb, eqb, ◌==◌, eq_iff, elem, is_empty, concat, concat-eq-nil_iff, All, Bool-cases, IfSome,
  arith,
}
use ai_repo.Domain.{lookup, text}
use ai_repo.Text.{non_empty, non_empty_iff, letters}
use ai_repo.Runtime.{Builtins, zero_float}
use ai_repo.UserBuilds.Payload.{scalar, Printing, get}
use ai_repo.Pricing.{PriceOffer, flatten_specs}
use ai_repo.Pricing.Tables.{price_limits, standalone_types, identity_categories}
use ai_repo.Pricing.Validate.{note_if, window_of, rejections, validate_offer}
use ai_repo.Pricing.Sections.{
  IsInside, IsPossible, note_if_iff, specs_part_iff, standalone_part_iff, limits_part_iff,
  window_part_iff,
}

-- What an offer must meet
pub record IsAcceptable {F : Type 0} ⦃py : Builtins F⦄ (printing : Printing F)
    (offer : PriceOffer F) : Type 0 where
  trusted : (offer.category ≢ "Accessories") ⊎ (py.lt offer.trust_score (py.literal 8 1) ≡ false)
  standalone :
      IfSome
        (lookup offer.category standalone_types)
        (λ type. get "product_type" offer.specs ≡ scalar (text type.0))
  named : (offer.model ≢ "") × (3 ≤ letters offer.normalized_model)
  currency : (py.upper offer.currency ≡ offer.currency) × (letters offer.currency ≡ 3)
  positive : py.le offer.price zero_float ≡ false
  within :
      IfSome
        (lookup offer.category price_limits)
        (λ limits. (offer.currency ≢ "USD") ⊎ IsInside offer.price limits)
  market :
      IfSome
        (window_of printing offer)
        (λ found. IsInside offer.price (found.1.hard_low, found.1.hard_high))
  specs : All IsPossible (flatten_specs offer.specs)

is_empty_iff : (xs : List String) → (is_empty xs ≡ true) ↔ (xs ≡ [])
is_empty_iff [] = (λ _. refl, λ _. refl)
is_empty_iff (x ∷ xs) = (λ h. cc, λ h. cc)

module _ {F : Type 0} ⦃py : Builtins F⦄ (printing : Printing F) (offer : PriceOffer F) where
  trusted_iff :
      (note_if
          (offer.category == "Accessories" && py.lt offer.trust_score (py.literal 8 1))
          "unclassified_low_trust_listing"
        ≡ [])
      ↔ ((offer.category ≢ "Accessories") ⊎ (py.lt offer.trust_score (py.literal 8 1) ≡ false))
  trusted_iff = (
    λ h. elim (Bool-cases (offer.category == "Accessories")) [
      | inr other ↦ inl (λ e. let same = (eq_iff offer.category "Accessories").1 e in cc)
      | inl same ↦ inr (ground arith)
    ],
    λ w. elim w [
      | inl other ↦ ground (arith, (eq_iff offer.category "Accessories").0)
      | inr high ↦ ground arith
    ],
  )

  named_iff :
      ((note_if
            (not (non_empty offer.model) || ltb (letters offer.normalized_model) 3)
            "malformed_model_name"
          ≡ [])
        × (note_if
              (elem offer.category identity_categories && not (non_empty offer.model))
              "incomplete_identity_model"
            ≡ []))
      ↔ ((offer.model ≢ "") × (3 ≤ letters offer.normalized_model))
  named_iff = (
    λ (malformed, incomplete). ((non_empty_iff offer.model).0 (ground arith), ground arith),
    λ (given, long).
        let given' = (non_empty_iff offer.model).1 given in (ground arith, ground arith),
  )

  currency_iff :
      (note_if
          (not (offer.currency == py.upper offer.currency) || not (eqb (letters offer.currency) 3))
          "missing_or_invalid_currency"
        ≡ [])
      ↔ ((py.upper offer.currency ≡ offer.currency) × (letters offer.currency ≡ 3))
  currency_iff = ground (arith, eq_iff offer.currency (py.upper offer.currency))

  sections-IsAcceptable :
      All (λ xs. xs ≡ []) (rejections printing offer) → IsAcceptable printing offer
  unfolding rejections
  sections-IsAcceptable
        (
          trusted,
          (
            standalone,
            (malformed, (incomplete, (currency, (positive, (within, (market, (specs, _))))))),
          ),
        ) =
      record {
        trusted = trusted_iff.0 trusted;
        standalone = (standalone_part_iff printing offer).0 standalone;
        named = named_iff.0 (malformed, incomplete);
        currency = currency_iff.0 currency;
        positive =
            (note_if_iff (py.le offer.price zero_float) "impossible_non_positive_price").0 positive;
        within = (limits_part_iff printing offer).0 within;
        market = (window_part_iff printing offer).0 market;
        specs = (specs_part_iff (flatten_specs offer.specs)).0 specs;
      }

  IsAcceptable-sections :
      IsAcceptable printing offer → All (λ xs. xs ≡ []) (rejections printing offer)
  unfolding rejections
  IsAcceptable-sections ok =
      let (malformed, incomplete) = named_iff.1 ok.named in
      (
        trusted_iff.1 ok.trusted,
        (
          (standalone_part_iff printing offer).1 ok.standalone,
          (
            malformed,
            (
              incomplete,
              (
                currency_iff.1 ok.currency,
                (
                  (note_if_iff (py.le offer.price zero_float) "impossible_non_positive_price").1
                      ok.positive,
                  (
                    (limits_part_iff printing offer).1 ok.within,
                    (
                      (window_part_iff printing offer).1 ok.market,
                      ((specs_part_iff (flatten_specs offer.specs)).1 ok.specs, tt),
                    ),
                  ),
                ),
              ),
            ),
          ),
        ),
      )

  -- An offer is accepted exactly if: it is no accessory from a source below a trust of 0.8; a listing of a
  -- category with a type has this type; the model is given and its normal form has three letters; the currency is
  -- three letters, all capitals; the price is positive; in USD it is within the limits of the category; where a
  -- market window is known for its family and currency, it is within the hard bounds; and each spec that has
  -- limits is a number within them.
  pub validate_offer-accepted_iff :
      (previous_price : Option F)
      → ((validate_offer printing offer previous_price).accepted ≡ true)
        ↔ IsAcceptable printing offer
  unfolding validate_offer
  validate_offer-accepted_iff previous_price = (
    λ h.
        let parts : All (λ xs. xs ≡ []) (rejections printing offer) =
          (concat-eq-nil_iff (rejections printing offer)).0
            ((is_empty_iff (concat (rejections printing offer))).0 h) in
        sections-IsAcceptable parts,
    λ ok.
        (is_empty_iff (concat (rejections printing offer))).1
          ((concat-eq-nil_iff (rejections printing offer)).1 (IsAcceptable-sections ok)),
  )

-- ===== src/Pricing/Sections.antt =====
-- When each section of `validate_offer` of backend/app/services/pricing_quality.py rejects nothing.
use ai_repo.Prelude.{
  String, ◌≡◌, ◌≢◌, refl, ap, ◌↔◌, ◌⊎◌, inl, inr, some, Bool, true, false, not, List, [], ◌∷◌,
  eq_iff, append-eq-nil, All, Option-cases, IfSome, arith,
}
use mathlib.Core.Option.{some-injective}
use ai_repo.Domain.{lookup, flag, int, real, text}
use ai_repo.Text.{◌⧺◌}
use ai_repo.Runtime.{Builtins}
use ai_repo.UserBuilds.Payload.{Json, null, scalar, items, object, Printing, get}
use ai_repo.Pricing.{PriceOffer, as_float}
use ai_repo.Pricing.Tables.{price_limits, spec_limits, standalone_types}
use ai_repo.Pricing.Validate.{
  note_if, outside, spec_part, specs_part, is_text, standalone_part, limits_part, window_of,
  window_part,
}

module _ {F : Type 0} ⦃py : Builtins F⦄ where
  abbrev pub IsInside : F → F × F → Type 0
  IsInside x (low, high) = (py.lt x low ≡ false) × (py.lt high x ≡ false)

  -- A spec that has limits is a number within them.
  unfoldable pub IsPossible : String × Json F → Type 0
  IsPossible (key, value) =
      IfSome (lookup key spec_limits)
        (λ limits. (number : F) × (as_float value ≡ some number) × IsInside number limits)

pub note_if_iff : (b : Bool) (note : String) → (note_if b note ≡ []) ↔ (b ≡ false)
note_if_iff true note = (λ h. cc, λ h. cc)
note_if_iff false note = (λ _. refl, λ _. refl)

module _ {F : Type 0} ⦃py : Builtins F⦄ where
  is_text_iff : (s : String) (value : Json F) → (is_text s value ≡ true) ↔ (value ≡ scalar (text s))
  is_text_iff s null = (λ h. cc, λ e. cc)
  is_text_iff s (scalar (flag b)) = (λ h. cc, λ e. cc)
  is_text_iff s (scalar (int n)) = (λ h. cc, λ e. cc)
  is_text_iff s (scalar (real x)) = (λ h. cc, λ e. cc)
  is_text_iff s (scalar (text t)) = (
    λ h. ap (λ u. scalar (text u)) ((eq_iff t s).0 h),
    λ e. let same : t ≡ s = cc in (eq_iff t s).1 same,
  )
  is_text_iff s (items xs) = (λ h. cc, λ e. cc)
  is_text_iff s (object fields) = (λ h. cc, λ e. cc)

  outside_iff : (x : F) (limits : F × F) → (outside x limits ≡ false) ↔ IsInside x limits
  outside_iff x (low, high) = ground arith

  spec_part_iff : (entry : String × Json F) → (spec_part entry ≡ []) ↔ IsPossible entry
  unfolding spec_part IsPossible
  spec_part_iff (key, value) = elim (Option-cases (lookup key (spec_limits {F = F}))) [
    | inl free ↦ rw (spec_part, IsPossible, free) (λ _. tt, λ _. refl)
    | inr (limits, is) ↦ elim (Option-cases (as_float value)) [
      | inl corrupt ↦ rw (spec_part, IsPossible, is, corrupt) (λ h. cc, λ w. cc)
      | inr (number, reads) ↦
          rw (spec_part, IsPossible, is, reads)
            (
              λ h. (
                number,
                refl,
                (outside_iff number limits).0
                    ((note_if_iff (outside number limits) ("impossible_" ⧺ key)).0 h),
              ),
              λ w.
                  let same : number ≡ w.0 = some-injective number w.0 w.1 in
                  (note_if_iff (outside number limits) ("impossible_" ⧺ key)).1
                    ((outside_iff number limits).1 (rw same w.2)),
            )
    ]
  ]

  pub specs_part_iff :
      (entries : List (String × Json F)) → (specs_part entries ≡ []) ↔ All IsPossible entries
  unfolding specs_part
  specs_part_iff [] = (λ _. tt, λ _. refl)
  specs_part_iff (entry ∷ entries) = (
    λ h.
        let (e, k) = append-eq-nil (spec_part entry) (specs_part entries) h in
        ((spec_part_iff entry).0 e, (specs_part_iff entries).0 k),
    λ (e, k). rw ((spec_part_iff entry).1 e, (specs_part_iff entries).1 k) refl,
  )

module _ {F : Type 0} ⦃py : Builtins F⦄ (printing : Printing F) (offer : PriceOffer F) where
  pub standalone_part_iff :
      (standalone_part printing offer ≡ [])
      ↔ IfSome
          (lookup offer.category standalone_types)
          (λ type. get "product_type" offer.specs ≡ scalar (text type.0))
  unfolding standalone_part
  standalone_part_iff = elim (Option-cases (lookup offer.category standalone_types)) [
    | inl any_type ↦ rw (standalone_part, any_type) (λ _. tt, λ _. refl)
    | inr ((wanted, reason), is) ↦
        let typed = is_text_iff wanted (get "product_type" offer.specs) in
        let note = note_if_iff (not (is_text wanted (get "product_type" offer.specs))) reason in
        rw (standalone_part, is)
          (
            λ h.
                let wrong : not (is_text wanted (get "product_type" offer.specs)) ≡ false =
                  note.0 h in
                typed.0 (ground arith),
            λ e. note.1 (ground (arith, typed.1 e)),
          )
  ]

  pub limits_part_iff :
      (limits_part printing offer ≡ [])
      ↔ IfSome
          (lookup offer.category price_limits)
          (λ limits. (offer.currency ≢ "USD") ⊎ IsInside offer.price limits)
  unfolding limits_part
  limits_part_iff = elim (Option-cases (lookup offer.category (price_limits {F = F}))) [
    | inl free ↦ rw (limits_part, free) (λ _. tt, λ _. refl)
    | inr ((low, high), is) ↦ rw (limits_part, is) (ground (arith, eq_iff offer.currency "USD"))
  ]

  pub window_part_iff :
      (window_part printing offer ≡ [])
      ↔ IfSome
          (window_of printing offer)
          (λ found. IsInside offer.price (found.1.hard_low, found.1.hard_high))
  unfolding window_part
  window_part_iff = elim (Option-cases (window_of printing offer)) [
    | inl free ↦ rw (window_part, free) (λ _. tt, λ _. refl)
    | inr ((market, window), is) ↦
        let reason = "suspicious_price_outside_" ⧺ market.label ⧺ "_hard_bounds" in
        rw (window_part, is)
          (
            λ h. (outside_iff offer.price (window.hard_low, window.hard_high)).0 (
                (note_if_iff (outside offer.price (window.hard_low, window.hard_high)) reason).0 h),
            λ inside.
                (note_if_iff (outside offer.price (window.hard_low, window.hard_high)) reason).1
                  ((outside_iff offer.price (window.hard_low, window.hard_high)).1 inside),
          )
  ]

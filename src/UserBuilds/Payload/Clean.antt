-- ===== src/UserBuilds/Payload/Clean.antt =====
-- Stripped payloads of backend/app/services/user_builds.py hold nothing private.
use ai_repo.Prelude.{
  String, ◌≡◌, refl, ap, ◌∙◌, ◌⊎◌, inl, inr, Bool, true, false, ◌&&◌, Bool-cases, ◌==◌, eq_iff,
}
use ai_repo.Domain.{text}
use ai_repo.Text.{◌⧺◌}
use ai_repo.UserBuilds.Payload.{
  Json, Jsons, Fields, null, scalar, items, object, nil, cons, end, field, Printing, is_blocked,
  public_product_id, strip_entry, strip_public_fields, strip_items, strip_fields,
}

module _ {F : Type 0} (public_share : Bool) where
  -- An entry may be shown: its key is not blocked, and in a public view a product or a build is named
  -- by a text that says nothing of the original id.
  pub record IsOpen (key : String) (v : Json F) : Type 0 where
    pub allowed : is_blocked key ≡ false
    pub product :
        ((public_share && key == "product_id") ≡ false)
        ⊎ ((t : String) × (v ≡ scalar (text ("public-" ⧺ t))))
    pub build : ((public_share && key == "build_id") ≡ false) ⊎ (v ≡ scalar (text "shared-build"))

  -- Every entry at every depth may be shown.
  unfoldable mutual
    pub IsClean : Json F → Type 0
    IsClean null = Unit
    IsClean (scalar s) = Unit
    IsClean (items xs) = AreClean xs
    IsClean (object fields) = HasCleanFields fields

    pub AreClean : Jsons F → Type 0
    AreClean nil = Unit
    AreClean (cons x xs) = IsClean x × AreClean xs

    pub HasCleanFields : Fields F → Type 0
    HasCleanFields end = Unit
    HasCleanFields (field key v fields) = IsOpen key v × IsClean v × HasCleanFields fields

product-not_build :
    (shared : Bool) (key : String)
    → (shared && key == "product_id") ≡ true
    → (shared && key == "build_id") ≡ false
product-not_build false key e = refl
product-not_build true key e =
    let same : key ≡ "product_id" = (eq_iff key "product_id").0 e in rw same refl

module _ {F : Type 0} (py : Printing F) (public_share : Bool) where
  strip_entry-HasCleanFields :
      (whole : Fields F) (key : String) (kept : Json F) (rest : Fields F)
      → IsClean public_share kept
      → HasCleanFields public_share rest
      → HasCleanFields public_share (strip_entry py public_share whole key kept rest)
  unfolding strip_entry IsClean public_product_id
  strip_entry-HasCleanFields whole key kept rest h k = elim (Bool-cases (is_blocked key)) [
    | inl b ↦ rw b k
    | inr b ↦ elim (Bool-cases (public_share && key == "product_id")) [
      | inl p ↦
          rw (b, p)
            (
              record {
                allowed = b;
                product = inr (_, refl);
                build = inl (product-not_build public_share key p);
              },
              tt,
              k,
            )
      | inr p ↦ elim (Bool-cases (public_share && key == "build_id")) [
        | inl q ↦ rw (b, p, q) (record { allowed = b; product = inl p; build = inr refl }, tt, k)
        | inr q ↦ rw (b, p, q) (record { allowed = b; product = inl p; build = inl q }, h, k)
      ]
    ]
  ]

  mutual
    unfolding strip_public_fields IsClean

    strip-IsClean_lem : (v : Json F) → IsClean public_share (strip_public_fields py public_share v)
    strip-IsClean_lem null = tt
    strip-IsClean_lem (scalar s) = tt
    strip-IsClean_lem (items xs) = strip_items-AreClean xs
    strip-IsClean_lem (object fields) = strip_fields-HasCleanFields fields fields

    strip_items-AreClean : (xs : Jsons F) → AreClean public_share (strip_items py public_share xs)
    strip_items-AreClean nil = tt
    strip_items-AreClean (cons x xs) = (strip-IsClean_lem x, strip_items-AreClean xs)

    strip_fields-HasCleanFields :
        (whole fields : Fields F)
        → HasCleanFields public_share (strip_fields py public_share whole fields)
    strip_fields-HasCleanFields whole end = tt
    strip_fields-HasCleanFields whole (field key v fields) =
        strip_entry-HasCleanFields whole key (strip_public_fields py public_share v)
          (strip_fields py public_share whole fields) (strip-IsClean_lem v)
          (strip_fields-HasCleanFields whole fields)

  -- Whatever the payload, after stripping no blocked key is left at any depth, and in a public view
  -- every product id is a public text and every build id is "shared-build".
  pub strip-IsClean : (v : Json F) → IsClean public_share (strip_public_fields py public_share v)
  strip-IsClean v = strip-IsClean_lem v

module _ {F : Type 0} (py : Printing F) where
  strip_entry-open :
      (whole : Fields F) (key : String) (kept : Json F) (rest : Fields F)
      → is_blocked key ≡ false
      → strip_entry py false whole key kept rest ≡ field key kept rest
  unfolding strip_entry
  strip_entry-open whole key kept rest b = rw b refl

  mutual
    unfolding strip_public_fields IsClean

    strip_clean : (v : Json F) → IsClean false v → strip_public_fields py false v ≡ v
    strip_clean null h = refl
    strip_clean (scalar s) h = refl
    strip_clean (items xs) h = ap items (strip_items_clean xs h)
    strip_clean (object fields) h = ap object (strip_fields_clean fields fields h)

    strip_items_clean : (xs : Jsons F) → AreClean false xs → strip_items py false xs ≡ xs
    strip_items_clean nil h = refl
    strip_items_clean (cons x xs) (h, k) = rw (strip_clean x h, strip_items_clean xs k) refl

    strip_fields_clean :
        (whole fields : Fields F)
        → HasCleanFields false fields
        → strip_fields py false whole fields ≡ fields
    strip_fields_clean whole end h = refl
    strip_fields_clean whole (field key v fields) (o, h, k) =
        strip_entry-open whole key (strip_public_fields py false v)
          (strip_fields py false whole fields) o.allowed
        ∙ (rw (strip_clean v h, strip_fields_clean whole fields k) refl)

  -- A payload in which nothing is blocked is kept as it is.
  pub strip_fields-clean :
      (fields : Fields F)
      → IsClean false (object fields)
      → strip_fields py false fields fields ≡ fields
  unfolding IsClean
  strip_fields-clean fields h = strip_fields_clean fields fields h

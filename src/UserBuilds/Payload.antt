-- ===== src/UserBuilds/Payload.antt =====
-- The payload of a saved build, in backend/app/services/user_builds.py: what is stripped from it and
-- what is read from it.
pub mod Clean
pub mod Unique
use ai_repo.Prelude.{
  ℕ, String, Option, none, some, Bool, true, false, not, ◌&&◌, ◌||◌, List, [], ◌∷◌, ◌++◌, filter,
  map, take, elem, if◌then◌else◌, is_empty, ◌==◌, get_or,
}
use ai_repo.Domain.{Scalar, flag, text}
use ai_repo.Text.{◌⧺◌, replace, non_empty}

-- A JSON value. The keys of an object are distinct, and in their order of insertion.
mutual
  pub data Json (F : Type 0) : Type 0 where
    null : Json F
    scalar : Scalar F → Json F
    items : Jsons F → Json F
    object : Fields F → Json F

  pub data Jsons (F : Type 0) : Type 0 where
    nil : Jsons F
    cons : Json F → Jsons F → Jsons F

  pub data Fields (F : Type 0) : Type 0 where
    end : Fields F
    field : String → Json F → Fields F → Fields F

-- How Python tests, prints and folds such values.
pub record Printing (F : Type 0) : Type 0 where
  pub is_true : Json F → Bool
  pub str : Json F → String
  pub lower : String → String

abbrev pub blocked_keys : List String
blocked_keys =
    "audit_trace_id" ∷ "internal_audit_ids" ∷ "audit_event_id" ∷ "trace_id" ∷ "api_key" ∷ "secret"
    ∷ "user_email" ∷ "email" ∷ "price_snapshot_id" ∷ "recommended_price_snapshot_id" ∷ []

unfoldable pub is_blocked : String → Bool
is_blocked key = elem key blocked_keys

-- `value.get(key)`, with `None` for a missing key
unfoldable pub get : {F : Type 0} → String → Fields F → Json F
get key end = null
get key (field k v fields) = if k == key then v else get key fields

module _ {F : Type 0} (py : Printing F) where
  -- `str(value.get("category") or "component").lower().replace(" ", "-")`, after "public-"
  unfoldable pub public_product_id : Fields F → String
  unfolding get
  public_product_id fields =
      let category = get "category" fields in
      "public-"
      ⧺ replace " " "-" (py.lower (if py.is_true category then py.str category else "component"))

  -- What becomes of one entry with a public or private key; `kept` is its stripped value, `whole` the
  -- object that it stands in.
  unfoldable pub strip_entry : Bool → Fields F → String → Json F → Fields F → Fields F
  unfolding public_product_id
  strip_entry public_share whole key kept rest =
      if is_blocked key
      then rest
      else if public_share && key == "product_id"
      then field key (scalar (text (public_product_id whole))) rest
      else if public_share && key == "build_id"
      then field key (scalar (text "shared-build")) rest
      else field key kept rest

  -- `_strip_public_fields`
  unfoldable mutual
    pub strip_public_fields : Bool → Json F → Json F
    strip_public_fields public_share null = null
    strip_public_fields public_share (scalar s) = scalar s
    strip_public_fields public_share (items xs) = items (strip_items public_share xs)
    strip_public_fields public_share (object fields) =
        object (strip_fields public_share fields fields)

    pub strip_items : Bool → Jsons F → Jsons F
    strip_items public_share nil = nil
    strip_items public_share (cons x xs) =
        cons (strip_public_fields public_share x) (strip_items public_share xs)

    -- `whole` is the object that the fields stand in.
    pub strip_fields : Bool → Fields F → Fields F → Fields F
    strip_fields public_share whole end = end
    strip_fields public_share whole (field key v fields) =
        strip_entry public_share whole key (strip_public_fields public_share v)
          (strip_fields public_share whole fields)

  -- `_sanitize_public_payload`
  abbrev pub sanitize_public_payload : Fields F → Json F
  sanitize_public_payload payload = strip_public_fields false (object payload)

-- `list(dict.fromkeys(xs))`: the first of each text, in order
unfoldable pub unique : List String → List String
unique [] = []
unique (x ∷ xs) = x ∷ filter (λ y. not (y == x)) (unique xs)

-- SavedBuildView: what the graph repository answers for a saved build
pub record StoredBuild (F : Type 0) : Type 0 where
  pub build_id : String
  pub user_id : Option String
  pub guest_id : Option String
  pub title : String
  pub region : String
  pub created_at : Option String
  pub updated_at : Option String
  pub build_mode : String
  pub total_price_sar : Option F
  pub confidence_level : String
  pub warning_summary : List String
  pub component_ids : List String
  pub price_snapshot_ids : List String
  pub build_summary : Fields F
  pub build_payload : Fields F
  pub share_slug : String
  pub public_visibility : Bool
  pub favorite : Bool

module _ {F : Type 0} (py : Printing F) where
  -- `_sanitize_saved_build_for_public`
  unfoldable pub sanitize_saved_build_for_public : StoredBuild F → StoredBuild F
  sanitize_saved_build_for_public data_ = record data_ {
    user_id = none;
    guest_id = none;
    component_ids = [];
    price_snapshot_ids = [];
    build_payload = strip_fields py true data_.build_payload data_.build_payload;
  }

  -- `[… for component in components if isinstance(component, dict) and component.get(key)]`, printed
  unfoldable pub texts_at : (Fields F → Json F) → Jsons F → List String
  texts_at read nil = []
  texts_at read (cons (object fields) xs) =
      let rest = texts_at read xs in
      if py.is_true (read fields) then py.str (read fields) ∷ rest else rest
  texts_at read (cons x xs) = texts_at read xs

  abbrev pub components_texts : (Fields F → Json F) → Json F → List String
  components_texts read (items xs) = unique (texts_at read xs)
  components_texts read x = []

  -- `_component_ids`
  unfoldable pub component_ids_of : List String → Fields F → List String
  unfolding get texts_at unique
  component_ids_of given payload =
      if is_empty given
      then components_texts (get "product_id") (get "components" payload)
      else unique given

  -- `component.get("price_snapshot_id") or component.get("recommended_price_snapshot_id")`
  abbrev snapshot_of : Fields F → Json F
  snapshot_of fields =
      if py.is_true (get "price_snapshot_id" fields)
      then get "price_snapshot_id" fields
      else get "recommended_price_snapshot_id" fields

  -- `_price_snapshot_ids`
  unfoldable pub price_snapshot_ids_of : List String → Fields F → List String
  unfolding get texts_at unique
  price_snapshot_ids_of given payload =
      if is_empty given
      then components_texts snapshot_of (get "components" payload)
      else unique given

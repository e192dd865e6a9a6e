-- ===== src/UserBuilds/Watchlist.antt =====
-- The watch list of backend/app/services/user_builds.py. The catalogue of prices is asked through a
-- function: what the pricing repository knows of a product in a region.
use mathlib.Core.Option.{some-injective}
use ai_repo.Prelude.{
  String, ◌≡◌, refl, ◌↔◌, inl, inr, Option, none, some, Bool, true, false, List, [], ◌∷◌, map,
  if◌then◌else◌, All, map-All, Bool-cases, Option-cases,
}
use ai_repo.Runtime.{Builtins}
use ai_repo.Text.{non_empty}

pub data WatchStatus : Type 0 where
  tracking target_met price_unavailable : WatchStatus

-- `WatchlistItemView`, without its owners and its times
pub record WatchlistItem (F : Type 0) : Type 0 where
  pub item_id : String
  pub product_id : String
  pub product_name : Option String
  pub region : String
  pub vendor : Option String
  pub target_price_sar : Option F
  pub last_seen_price : Option F
  pub current_price_sar : Option F
  pub last_price_change : Option F
  pub status : WatchStatus

-- What the code reads of `product_detail(…)`.
pub record ProductDetail (F : Type 0) : Type 0 where
  pub name : Option String
  pub current_recommended_vendor : Option String
  pub current_recommended_price : Option F
  pub current_best_price : Option F
  pub lowest_market_price : Option F

-- `a or b` of two optional texts
abbrev pub or_text : Option String → Option String → Option String
or_text none b = b
or_text (some s) b = if non_empty s then some s else b

module _ {F : Type 0} where
  abbrev first_price : Option F → Option F → Option F
  first_price none b = b
  first_price (some p) b = some p

  -- `_current_sa_price`
  unfoldable pub current_sa_price : Option (ProductDetail F) → Option F
  current_sa_price none = none
  current_sa_price (some d) =
      first_price d.current_recommended_price
        (first_price d.current_best_price d.lowest_market_price)

module _ {F : Type 0} ⦃py : Builtins F⦄ where
  -- `target is not None and price <= target`
  abbrev pub meets : F → Option F → Bool
  meets price none = false
  meets price (some target) = py.le price target

  abbrev pub status_for : (price target : Option F) → WatchStatus
  status_for none target = WatchStatus.price_unavailable
  status_for (some price) target =
      if meets price target then WatchStatus.target_met else WatchStatus.tracking

  -- `_watchlist_view`
  unfoldable pub watchlist_view : WatchlistItem F → WatchlistItem F
  watchlist_view item = record item {
    status = status_for item.current_price_sar item.target_price_sar;
  }

  -- `None if item.last_seen_price is None else current_price - item.last_seen_price`
  abbrev pub price_change : F → Option F → Option F
  price_change price none = none
  price_change price (some seen) = some (py.sub price seen)

  abbrev pub with_price : F → ProductDetail F → WatchlistItem F → WatchlistItem F
  with_price price detail item = record item {
    product_name = or_text item.product_name detail.name;
    vendor = or_text detail.current_recommended_vendor item.vendor;
    current_price_sar = some price;
    last_price_change = price_change price item.last_seen_price;
    status = status_for (some price) item.target_price_sar;
  }

  -- One turn of the loop of `list_watchlist`.
  unfoldable pub refreshed : Option (ProductDetail F) → WatchlistItem F → WatchlistItem F
  refreshed none item = item
  refreshed (some detail) item = elim (current_sa_price (some detail)) [
    | none ↦ item
    | some price ↦ with_price price detail item
  ]

  -- `list_watchlist`; `pricing` is missing where the service has no pricing repository
  unfoldable pub list_watchlist :
      Option (String → String → Option (ProductDetail F))
      → List (WatchlistItem F)
      → List (WatchlistItem F)
  unfolding watchlist_view refreshed
  list_watchlist none stored = map watchlist_view stored
  list_watchlist (some detail) stored =
      map (λ (i : WatchlistItem F). refreshed (detail i.product_id i.region) i)
        (map watchlist_view stored)

  -- The status says what the prices of the item say.
  pub record IsStatus (status : WatchStatus) (price target : Option F) : Type 0 where
    pub unavailable : (status ≡ WatchStatus.price_unavailable) ↔ (price ≡ none)
    pub met :
        (status ≡ WatchStatus.target_met) ↔ ((p : F) × (price ≡ some p) × (meets p target ≡ true))

  abbrev pub IsCurrent : WatchlistItem F → Type 0
  IsCurrent item = IsStatus item.status item.current_price_sar item.target_price_sar

  status_for-IsStatus : (price target : Option F) → IsStatus (status_for price target) price target
  status_for-IsStatus none target = record {
    unavailable = (λ _. refl, λ _. refl);
    met = (λ h. cc, λ h. cc h.1);
  }
  status_for-IsStatus (some p) target = elim (Bool-cases (meets p target)) [
    | inl e ↦
        rw e (record { unavailable = (λ h. cc, λ h. cc); met = (λ h. (p, refl, e), λ h. refl) })
    | inr e ↦ rw e (record {
      unavailable = (λ h. cc, λ h. cc);
      met = (λ h. cc, λ h. absurd (no_target (some-injective _ _ h.1) e h.2));
    })
  ]
    where
      no_target : {q : F} → p ≡ q → meets p target ≡ false → meets q target ≡ true → ⊥
      no_target same f t = cc

  refreshed-IsCurrent :
      (detail : Option (ProductDetail F)) (item : WatchlistItem F)
      → IsCurrent item
      → IsCurrent (refreshed detail item)
  unfolding refreshed
  refreshed-IsCurrent none item h = h
  refreshed-IsCurrent (some detail) item h = elim (Option-cases (current_sa_price (some detail))) [
    | inl e ↦ rw (e, refreshed) h
    | inr (price, e) ↦ rw (e, refreshed) (status_for-IsStatus (some price) item.target_price_sar)
  ]

  viewed-IsCurrent : (stored : List (WatchlistItem F)) → All IsCurrent (map watchlist_view stored)
  unfolding watchlist_view
  viewed-IsCurrent [] = tt
  viewed-IsCurrent (i ∷ stored) =
      (status_for-IsStatus i.current_price_sar i.target_price_sar, viewed-IsCurrent stored)

  -- With or without a pricing repository, every item that `list_watchlist` shows has the status that
  -- its prices say: unavailable exactly with no current price, and met exactly when there is a target
  -- and the current price is at most it.
  pub list_watchlist-IsCurrent :
      (pricing : Option (String → String → Option (ProductDetail F)))
      (stored : List (WatchlistItem F))
      → All IsCurrent (list_watchlist pricing stored)
  unfolding list_watchlist watchlist_view
  list_watchlist-IsCurrent none stored = viewed-IsCurrent stored
  list_watchlist-IsCurrent (some detail) stored =
      map-All IsCurrent IsCurrent
        (λ (i : WatchlistItem F). refreshed (detail i.product_id i.region) i)
        (map watchlist_view stored) (λ i h. refreshed-IsCurrent (detail i.product_id i.region) i h)
        (viewed-IsCurrent stored)

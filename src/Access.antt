-- ===== src/Access.antt =====
-- Who may call which endpoint, and how often: backend/app/core/security.py.
pub mod Own
pub mod Rates
pub mod Rules
pub mod Gate
pub mod Keys
use text.Mathlib.Text.{starts_with}
use ai_repo.Prelude.{
  ℕ, String, Option, none, some, Bool, true, false, ◌&&◌, List, [], ◌∷◌, ◌+◌, leb, ◌==◌,
  if◌then◌else◌, get_or,
}
use ai_repo.Domain.{lookup}
use ai_repo.Text.{non_empty, ◌⧺◌}

pub data Role : Type 0 where
  anonymous viewer analyst admin super_admin : Role

pub data AutonomyLevel : Type 0 where
  level_0 level_1 level_2 level_3 : AutonomyLevel

pub data ApprovalStatus : Type 0 where
  pending approved rejected expired executed deferred reviewed : ApprovalStatus

-- ROLE_RANK
abbrev pub role_rank : Role → ℕ
role_rank anonymous = 0
role_rank viewer = 1
role_rank analyst = 2
role_rank admin = 3
role_rank super_admin = 4

pub record AuthPrincipal : Type 0 where
  pub actor : String
  pub role : Role
  pub authenticated : Bool

abbrev pub has_role : AuthPrincipal → Role → Bool
has_role principal required = leb (role_rank required) (role_rank principal.role)

-- `entries[key] = value`: an old key keeps its place
unfoldable pub set_item : {V : Type 0} → (key : String) → V → List (String × V) → List (String × V)
set_item key value [] = (key, value) ∷ []
set_item key value (entry ∷ entries) =
    let others = set_item key value entries in
    if key == entry.0 then (key, value) ∷ entries else entry ∷ others

-- The settings that the functions read
pub record Settings : Type 0 where
  pub auth_required : Bool
  pub viewer_api_key : Option String
  pub analyst_api_key : Option String
  pub admin_api_key : Option String
  pub super_admin_api_key : Option String

abbrev with_key : Option String → Role → List (String × Role) → List (String × Role)
unfolding set_item
with_key none role keys = keys
with_key (some key) role keys = if non_empty key then set_item key role keys else keys

-- `configured_key_map`
unfoldable pub configured_key_map : Settings → List (String × Role)
unfolding set_item
configured_key_map settings = with_key settings.super_admin_api_key super_admin (
    with_key settings.admin_api_key admin
      (with_key settings.analyst_api_key analyst (with_key settings.viewer_api_key viewer [])))

abbrev pub nobody : AuthPrincipal
nobody = record { actor = "anonymous"; role = anonymous; authenticated = false }

abbrev pub role_name : Role → String
role_name anonymous = "anonymous"
role_name viewer = "viewer"
role_name analyst = "analyst"
role_name admin = "admin"
role_name super_admin = "super_admin"

-- `authenticate_api_key`, with the configured keys
unfoldable pub authenticate_api_key : Settings → Option String → AuthPrincipal
unfolding configured_key_map lookup
authenticate_api_key settings api_key =
    if settings.auth_required
    then elim api_key [
      | none ↦ nobody
      | some key ↦
          if non_empty key
          then elim (lookup key (configured_key_map settings)) [
            | none ↦ nobody
            | some role ↦ record {
              actor = role_name role ⧺ ":api-key";
              role = role;
              authenticated = true;
            }
          ]
          else nobody
    ]
    else record { actor = "local-dev"; role = super_admin; authenticated = true }

pub record EndpointRule : Type 0 where
  pub method : String
  pub prefix : String
  pub role : Role
  pub risk_level : AutonomyLevel
  pub approval_required : Bool

-- The first rule of the list that fits; the method is in capitals
unfoldable pub first_rule : String → String → List EndpointRule → Option EndpointRule
first_rule method path [] = none
first_rule method path (r ∷ rules) =
    if r.method == method && starts_with path r.prefix then some r else first_rule method path rules

pub record RateLimiter : Type 0 where
  pub window_seconds : ℕ
  pub max_requests : ℕ
  pub buckets : List (String × (ℕ × ℕ))

-- `allow` at the time `now`. Times are whole ticks, so that `now - started_at >= window_seconds` is exact.
unfoldable pub allow : String → ℕ → RateLimiter → Bool × RateLimiter
unfolding lookup set_item
allow key now limiter =
    let (started_at, count) = get_or (lookup key limiter.buckets) (now, 0) in
    if leb (started_at + limiter.window_seconds) now
    then (true, record limiter { buckets = set_item key (now, 1) limiter.buckets })
    else if leb limiter.max_requests count
    then (false, limiter)
    else (true, record limiter { buckets = set_item key (started_at, count + 1) limiter.buckets })

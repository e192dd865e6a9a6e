-- ===== src/Tests/Access.antt =====
-- Runs of the access control of backend/app/core/security.py and backend/app/main.py.
use ai_repo.Prelude.{
  ℕ, String, ◌≡◌, ◌≤◌, ◌*◌, ◌+◌, refl, ◌↔◌, eq_iff, none, some, true, false, ◌&&◌, List, [], ◌∷◌,
  arith, IfSome, if◌then◌else◌,
}
use ai_repo.Text.{non_empty}
use ai_repo.Domain.{lookup}
use ai_repo.Access.{
  Role, analyst, admin, role_rank, has_role, Settings, RateLimiter, authenticate_api_key,
  configured_key_map, set_item, allow, first_rule, level_1,
}
use ai_repo.Access.Rules.{endpoint_rule, endpoint_rules, rule}
use ai_repo.Access.Keys.{key_of, authenticate-opens_iff}
use ai_repo.Access.Rates.{passed, passed-twice}
use ai_repo.Access.Gate.{
  Edge, Request, Conditions, replied, answered, AppState, security_audit_middleware, run_handler,
  guarded, idempotency_seen,
}
use ai_repo.Access.Gate.Cleared.{is_handled, IsCleared, middleware-IsCleared}
use ai_repo.Access.Gate.Once.{IsAppending, here, middleware-Once}

abbrev settings : Settings
settings = record {
  auth_required = true;
  viewer_api_key = none;
  analyst_api_key = some "look";
  admin_api_key = some "write";
  super_admin_api_key = none;
}

authenticate-opens_iff_example :
    ((authenticate_api_key settings (some "write")).authenticated
        && has_role (authenticate_api_key settings (some "write")) analyst
      ≡ true)
    ↔ ((non_empty "write" ≡ true)
        × (held : Role) × (key_of settings held ≡ some "write")
        × role_rank analyst ≤ role_rank held)
authenticate-opens_iff_example = authenticate-opens_iff settings refl "write" analyst

abbrev requests : List (String × ℕ)
requests = ("a", 1) ∷ ("a", 58) ∷ ("b", 59) ∷ ("a", 60) ∷ ("a", 61) ∷ ("a", 62) ∷ ("a", 63) ∷ []

abbrev limiter : RateLimiter
limiter = record { window_seconds = 60; max_requests = 2; buckets = [] }

passed-twice_runs : passed "a" 50 110 limiter requests ≡ 3
unfolding passed allow lookup set_item
passed-twice_runs = refl

passed-twice_example : passed "a" 50 (50 + 60) limiter requests ≤ 2 * 2
passed-twice_example = passed-twice 60 2 50 "a" requests (ground arith) (
  ground arith,
  (
    ground arith,
    (ground arith, (ground arith, (ground arith, (ground arith, (ground arith, tt))))),
  ),
)

-- A handler that counts its calls
abbrev edge : Edge ℕ
edge = record {
  upper = λ s. s;
  payload_hash = λ s. s;
  settings = settings;
  call_next = λ _ world. (replied 200 "done", record world { rest = world.rest + 1 });
}

abbrev conditions : Conditions
conditions = record { now = 100; can_check = true; can_write = true }

abbrev sync : Request
sync = record {
  method = "POST";
  path = "/pricing/sync";
  api_key = some "write";
  client = some "10.0.0.1";
  idempotency_key = some "k1";
  body = "";
  trace_id = "trace-1";
  metadata = [];
}

abbrev started : AppState ℕ
started = record { rate_limiter = limiter; world = record { rest = 0; audit = [] } }

endpoint_rule_runs :
    endpoint_rule (λ s. s) "POST" "/pricing/sync"
    ≡ some (rule "POST" "/pricing/sync" admin level_1 false)
unfolding endpoint_rule endpoint_rules first_rule
endpoint_rule_runs = refl

abbrev served : AppState ℕ
served = (security_audit_middleware edge conditions sync started).1

served_runs : served.world.rest ≡ 1
unfolding security_audit_middleware endpoint_rule endpoint_rules first_rule guarded run_handler
    allow lookup set_item authenticate_api_key configured_key_map idempotency_seen
served_runs = refl

middleware-IsCleared_example :
    ((is_handled (security_audit_middleware edge conditions sync started).0 ≡ true)
      ↔ IfSome
          (endpoint_rule edge.upper sync.method sync.path)
          (IsCleared edge conditions sync started))
    × (served.world.rest ≡ (
        if is_handled (security_audit_middleware edge conditions sync started).0
        then (edge.call_next sync started.world).1.rest
        else 0))
middleware-IsCleared_example = middleware-IsCleared edge conditions sync started

edge-IsAppending : IsAppending edge
edge-IsAppending request world e m = m

first_answer :
    (security_audit_middleware edge conditions sync started).0 ≡ answered 200 "done" "trace-1"
unfolding security_audit_middleware endpoint_rule endpoint_rules first_rule guarded run_handler
    allow lookup set_item authenticate_api_key configured_key_map idempotency_seen
first_answer = refl

middleware-Once_example :
    is_handled (security_audit_middleware edge conditions sync served).0 ≡ false
middleware-Once_example =
    middleware-Once edge edge-IsAppending conditions sync "k1" refl refl refl
      (rule "POST" "/pricing/sync" admin level_1 false) endpoint_rule_runs started 200 "done"
      first_answer (ground arith) served here conditions refl sync refl refl
      (λ e. let h : false ≡ true = (eq_iff "POST" "GET").1 e in cc)
      (rule "POST" "/pricing/sync" admin level_1 false) endpoint_rule_runs

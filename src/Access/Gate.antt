-- ===== src/Access/Gate.antt =====
-- `security_audit_middleware` of backend/app/main.py: what stands between a request and its handler.
-- A generated id and the time of an audit event are left out.
pub mod Cases
pub mod Repeat
pub mod Cleared
pub mod Once
use ai_repo.Prelude.{
  ℕ, String, Option, none, some, Bool, true, false, not, ◌&&◌, List, [], ◌∷◌, ltb, ◌==◌,
  if◌then◌else◌, any, get_or,
}
use ai_repo.Text.{non_empty, strip_char, replace, ◌⧺◌}
use ai_repo.Access.{
  Role, AutonomyLevel, ApprovalStatus, role_name, AuthPrincipal, has_role, Settings,
  authenticate_api_key, EndpointRule, RateLimiter, allow, set_item,
}
use ai_repo.Access.Keys.{is_key}
use ai_repo.Access.Rules.{endpoint_rule}

-- What the middleware reads of a request; `metadata` is what `_audit_metadata` makes of its query and its body
pub record Request : Type 0 where
  pub method : String
  pub path : String
  pub api_key : Option String
  pub client : Option String
  pub idempotency_key : Option String
  pub body : String
  pub trace_id : String
  pub metadata : List (String × String)

pub record AuditEvent : Type 0 where
  pub actor : String
  pub role : Role
  pub action : String
  pub endpoint : String
  pub method : String
  pub target : Option String
  pub request_payload_hash : Option String
  pub idempotency_key : Option String
  pub result : String
  pub status_code : ℕ
  pub trace_id : String
  pub approval_required : Bool
  pub approval_status : Option ApprovalStatus
  pub risk_level : AutonomyLevel
  pub metadata : List (String × String)

-- The time of a request, and whether the database answers to its check and to its write
pub record Conditions : Type 0 where
  pub now : ℕ
  pub can_check : Bool
  pub can_write : Bool

-- What a handler leaves: a response, or an exception of the named type
pub data Reply : Type 0 where
  replied : (status_code : ℕ) (content : String) → Reply
  raised : (error_type : String) → Reply

pub data Response : Type 0 where
  rejected : (status_code : ℕ) (error detail trace_id : String) → Response
  failed : (detail trace_id : String) → Response
  answered : (status_code : ℕ) (content trace_id : String) → Response

-- The audit events of the database, and the rest of the application's state
pub record World (W : Type 0) : Type 0 where
  pub rest : W
  pub audit : List AuditEvent

pub record AppState (W : Type 0) : Type 0 where
  pub rate_limiter : RateLimiter
  pub world : World W

-- A completed mutation with this key on this path
abbrev pub is_done : (endpoint key : String) → AuditEvent → Bool
is_done endpoint key e =
    e.endpoint == endpoint && is_key key e.idempotency_key && e.result == "succeeded"

-- `idempotency_seen`, on the audit events
unfoldable pub idempotency_seen : (endpoint key : String) → List AuditEvent → Bool
idempotency_seen endpoint key events = any (is_done endpoint key) events

-- `_idempotency_seen_safely`
abbrev pub seen_safely : Conditions → (path key : String) → List AuditEvent → Bool
seen_safely conditions path key events = conditions.can_check && idempotency_seen path key events

-- `str.upper`, SHA-256, the settings and the handlers behind the middleware
pub record Edge (W : Type 0) : Type 0 where
  pub upper : String → String
  pub payload_hash : String → String
  pub settings : Settings
  pub call_next : Request → World W → Reply × World W

module _ {W : Type 0} (edge : Edge W) where
  module _ (conditions : Conditions) (request : Request) where
    abbrev principal : AuthPrincipal
    principal = authenticate_api_key edge.settings request.api_key

    abbrev hash : Option String
    hash = if non_empty request.body then some (edge.payload_hash request.body) else none

    abbrev rate_key : String
    rate_key = principal.actor ⧺ ":" ⧺ get_or request.client "unknown" ⧺ ":" ⧺ request.path

    -- `_write_audit_safely`
    abbrev write_audit : AuditEvent → World W → World W
    write_audit event world =
        if conditions.can_write then record world { audit = event ∷ world.audit } else world

    abbrev event :
        EndpointRule
        → (action : String) → (key : Option String) → (result : String) → (status_code : ℕ)
        → List (String × String)
        → AuditEvent
    event rule action key result status_code metadata = record {
      actor = principal.actor;
      role = principal.role;
      action = action;
      endpoint = request.path;
      method = request.method;
      target = none;
      request_payload_hash = hash;
      idempotency_key = key;
      result = result;
      status_code = status_code;
      trace_id = request.trace_id;
      approval_required = rule.approval_required;
      approval_status = none;
      risk_level = rule.risk_level;
      metadata = metadata;
    }

    abbrev action_of_path : String
    action_of_path = replace "/" "." (strip_char "/" request.path)

    -- What is written about the handler's reply, for a path with a rule
    abbrev event_of : EndpointRule → Reply → AuditEvent
    event_of rule (replied status_code content) =
        event rule action_of_path request.idempotency_key
          (if ltb status_code 400 then "succeeded" else "failed") status_code request.metadata
    event_of rule (raised error_type) =
        event rule action_of_path request.idempotency_key "failed" 500
          (set_item "error_type" error_type request.metadata)

    abbrev response_of : Reply → Response
    response_of (replied status_code content) = answered status_code content request.trace_id
    response_of (raised error_type) =
        let detail =
          if request.path == "/catalog/import/stage"
          then "Request failed safely: " ⧺ error_type ⧺ "."
          else "Request failed. Check trace ID." in
        failed detail request.trace_id

    -- From `call_next` on
    unfoldable pub run_handler : Option EndpointRule → AppState W → Response × AppState W
    run_handler rule state =
        let ran = edge.call_next request state.world in
        let world : World W = elim rule [
          | none ↦ ran.1
          | some r ↦ write_audit (event_of r ran.0) ran.1
        ] in
        (response_of ran.0, record state { world = world })

    -- `idempotency_key and request.method.upper() != "GET" and _idempotency_seen_safely(...)`
    abbrev is_duplicate : List AuditEvent → Bool
    is_duplicate events = elim request.idempotency_key [
      | none ↦ false
      | some key ↦
          non_empty key
          && not (edge.upper request.method == "GET")
          && seen_safely conditions request.path key events
    ]

    abbrev refuse : (status_code : ℕ) (error detail : String) → AppState W → Response × AppState W
    refuse status_code error detail state =
        (rejected status_code error detail request.trace_id, state)

    abbrev forbid : EndpointRule → AppState W → Response × AppState W
    forbid rule state =
        refuse 403 "forbidden" (role_name rule.role ⧺ " role required.") (record state {
          world =
              write_audit (event rule "unauthorized" none "rejected" 403 request.metadata)
                state.world;
        })

    unfoldable pub guarded : EndpointRule → AppState W → Response × AppState W
    unfolding run_handler
    guarded rule state =
        let asked = allow rate_key conditions.now state.rate_limiter in
        let state' : AppState W = record state { rate_limiter = asked.1 } in
        if not asked.0
        then refuse 429 "rate_limited" "Too many requests." state'
        else if not (principal.authenticated && has_role principal rule.role)
        then forbid rule state'
        else if is_duplicate state.world.audit
        then refuse 409 "duplicate_request" "Mutation already completed for this idempotency key."
            state'
        else run_handler (some rule) state'

    unfoldable pub security_audit_middleware : AppState W → Response × AppState W
    unfolding run_handler guarded
    security_audit_middleware state = elim (endpoint_rule edge.upper request.method request.path) [
      | none ↦ run_handler none state
      | some rule ↦ guarded rule state
    ]

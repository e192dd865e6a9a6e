-- ===== src/Approvals/Decide.antt =====
-- Deciding approvals: the routes of backend/app/api/approvals.py, `decide_approval`
-- and `_set_approval_status` of backend/app/services/ops.py.
use ai_repo.Prelude.{
  ℕ, String, Option, none, some, Bool, true, false, not, ◌&&◌, ◌||◌, [], ◌∷◌, ◌==◌, if◌then◌else◌,
}
use ai_repo.Text.{◌⧺◌}
use ai_repo.Access.{
  AutonomyLevel, level_3, ApprovalStatus, pending, approved, rejected, deferred, reviewed,
  AuthPrincipal, has_role, super_admin,
}
use ai_repo.Access.Gate.{AuditEvent}
use ai_repo.Approvals.{ApprovalItem, Store, approval_by_id, update_approval}

-- Who decides, what is noted, the request's trace id and the time
pub record Decider : Type 0 where
  pub principal : AuthPrincipal
  pub note : Option String
  pub trace_id : String
  pub now : ℕ

pub record ApprovalDecisionResponse : Type 0 where
  pub approval : ApprovalItem
  pub audit_event : AuditEvent

pub data Outcome : Type 0 where
  http_error : (status_code : ℕ) (detail : String) → Outcome
  decided : ApprovalDecisionResponse → Outcome

abbrev pub is_level_3 : AutonomyLevel → Bool
is_level_3 level_3 = true
is_level_3 _ = false

abbrev pub status_text : ApprovalStatus → String
status_text pending = "pending"
status_text approved = "approved"
status_text rejected = "rejected"
status_text ApprovalStatus.expired = "expired"
status_text ApprovalStatus.executed = "executed"
status_text deferred = "deferred"
status_text reviewed = "reviewed"

-- Actions that only a super admin may approve
abbrev pub is_sensitive : String → Bool
is_sensitive action_type = action_type == "evolution_rollback" || action_type == "policy_escalation"

module _ (decider : Decider) where
  abbrev pub audit_of :
      ApprovalItem → (action result : String) → (status_code : ℕ) → ApprovalStatus → AuditEvent
  audit_of approval action result status_code status = record {
    actor = decider.principal.actor;
    role = decider.principal.role;
    action = action;
    endpoint = "/approvals/" ⧺ approval.id;
    method = "POST";
    target = some approval.id;
    request_payload_hash = none;
    idempotency_key = none;
    result = result;
    status_code = status_code;
    trace_id = decider.trace_id;
    approval_required = true;
    approval_status = some status;
    risk_level = approval.risk_level;
    metadata = [];
  }

  abbrev pub with_status : ApprovalStatus → ApprovalItem → ApprovalItem
  with_status status approval = record approval {
    status = status;
    decided_at = some decider.now;
    decided_by = some decider.principal.actor;
    decision_note = decider.note;
  }

  -- `_set_approval_status`
  unfoldable pub set_approval_status :
      ApprovalStatus → (action : String) → ApprovalItem → Store → Outcome × Store
  set_approval_status status action approval store =
      let updated = with_status status approval in
      let audit = audit_of approval action (status_text status) 200 status in
      (
        decided (record { approval = updated; audit_event = audit }),
        record { rest = update_approval updated store.rest; audit = audit ∷ store.audit },
      )

  abbrev pub blocked : ApprovalItem → Store → Outcome × Store
  blocked approval store =
      let audit = audit_of approval "approval.blocked_level_3" "blocked" 403 approval.status in
      (
        decided (record { approval = approval; audit_event = audit }),
        record store { audit = audit ∷ store.audit },
      )

  unfoldable pub decide_approval : (is_approved : Bool) → ApprovalItem → Store → Outcome × Store
  unfolding set_approval_status
  decide_approval is_approved approval store =
      if is_approved && is_level_3 approval.risk_level
      then blocked approval store
      else if is_approved
      then set_approval_status approved "approval.approve" approval store
      else set_approval_status rejected "approval.reject" approval store

  abbrev pub found : String → (ApprovalItem → Store → Outcome × Store) → Store → Outcome × Store
  found approval_id handle store = elim (approval_by_id approval_id store.rest) [
    | none ↦ (http_error 404 "Approval item not found.", store)
    | some approval ↦ handle approval store
  ]

  unfoldable pub approve : ApprovalItem → Store → Outcome × Store
  approve approval store =
      if is_level_3 approval.risk_level
      then (
        http_error 403 "Level 3 manual-only actions cannot be approved for autonomous execution.",
        store,
      )
      else if is_sensitive approval.action_type && not (has_role decider.principal super_admin)
      then (http_error 403 "super_admin role required for this approval.", store)
      else decide_approval true approval store

  unfoldable pub approve_item : String → Store → Outcome × Store
  unfolding approve
  approve_item approval_id store = found approval_id approve store

  unfoldable pub reject_item : String → Store → Outcome × Store
  unfolding decide_approval
  reject_item approval_id store = found approval_id (decide_approval false) store

  unfoldable pub defer_item : String → Store → Outcome × Store
  unfolding set_approval_status
  defer_item approval_id store =
      found approval_id (set_approval_status deferred "approval.defer") store

  unfoldable pub mark_item_reviewed : String → Store → Outcome × Store
  unfolding set_approval_status
  mark_item_reviewed approval_id store =
      found approval_id (set_approval_status reviewed "approval.mark_reviewed") store

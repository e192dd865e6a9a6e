-- ===== src/Approvals/Create.antt =====
-- Requesting approvals: `create_approval_from_autonomy` of backend/app/services/ops.py.
use ai_repo.Prelude.{
  String, Option, none, some, Bool, true, false, ◌&&◌, List, [], ◌∷◌, ◌==◌, if◌then◌else◌, any,
  filter, get_or,
}
use ai_repo.Text.{non_empty, ◌⧺◌}
use ai_repo.Access.{level_2, ApprovalStatus, pending, deferred}
use ai_repo.Approvals.{ApprovalItem, Store, approval_by_id, upsert_approval}

-- An intervention that an agent proposes
pub record AutonomousIntervention : Type 0 where
  pub kind : String
  pub target : String
  pub agent_kind : String
  pub requires_human_approval : Bool

pub record AutonomousCognitionReport : Type 0 where
  pub id : String
  pub product_id : Option String
  pub interventions : List AutonomousIntervention

abbrev is_unresolved : ApprovalStatus → Bool
is_unresolved pending = true
is_unresolved deferred = true
is_unresolved _ = false

-- `unresolved_approval_exists`
unfoldable pub unresolved_approval_exists : String → List ApprovalItem → Bool
unresolved_approval_exists id approvals =
    any (λ (a : ApprovalItem). a.id == id && is_unresolved a.status) approvals

-- `answers` says whether the database answers the two questions about an approval; where it does not, the code goes on.
module _ (answers : String → Bool) (report : AutonomousCognitionReport) where
  abbrev approval_id_of : AutonomousIntervention → String
  approval_id_of intervention =
      "approval:"
      ⧺ intervention.kind
      ⧺ ":"
      ⧺ intervention.target
      ⧺ ":"
      ⧺ get_or report.product_id "None"

  abbrev pub approval_of : AutonomousIntervention → ApprovalItem
  approval_of intervention = record {
    id = approval_id_of intervention;
    action_type = intervention.kind;
    affected_entities = filter non_empty (get_or report.product_id "" ∷ intervention.target ∷ []);
    risk_level = level_2;
    requested_by_agent = some intervention.agent_kind;
    status = pending;
    decided_at = none;
    decided_by = none;
    decision_note = none;
    trace_id = report.id;
  }

  -- An open approval with the same id, if there is one
  abbrev pub existing : String → List ApprovalItem → Option ApprovalItem
  existing id approvals =
      if answers id && unresolved_approval_exists id approvals
      then approval_by_id id approvals
      else none

  unfoldable pub request_approval :
      AutonomousIntervention → List ApprovalItem → ApprovalItem × List ApprovalItem
  unfolding unresolved_approval_exists approval_by_id upsert_approval
  request_approval intervention approvals =
      let fresh = approval_of intervention in
      elim (existing fresh.id approvals) [
        | some old ↦ (old, approvals)
        | none ↦ (fresh, upsert_approval fresh approvals)
      ]

  unfoldable pub request_approvals :
      List AutonomousIntervention → List ApprovalItem → List ApprovalItem × List ApprovalItem
  unfolding request_approval
  request_approvals [] approvals = ([], approvals)
  request_approvals (intervention ∷ interventions) approvals =
      let one = request_approval intervention approvals in
      let rest = request_approvals interventions one.1 in
      let skipped = request_approvals interventions approvals in
      if intervention.requires_human_approval then (one.0 ∷ rest.0, rest.1) else skipped

  unfoldable pub create_approval_from_autonomy : Store → List ApprovalItem × Store
  unfolding request_approvals
  create_approval_from_autonomy store =
      let out = request_approvals report.interventions store.rest in
      (out.0, record store { rest = out.1 })

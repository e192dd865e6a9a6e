-- ===== src/Tests/Approvals.antt =====
-- Runs of the approvals of backend/app/api/approvals.py.
use mathlib.Core.Option
use ai_repo.Prelude.{String, ◌≡◌, refl, ◌↔◌, some, true, ◌&&◌, [], ◌∷◌, ◌==◌, if◌then◌else◌}
use ai_repo.Access.{super_admin, approved}
use ai_repo.Approvals.{ApprovalItem, Store, approval_by_id, update_approval, upsert_approval}
use ai_repo.Approvals.Decide.{
  Decider, approve_item, approve, decide_approval, set_approval_status, with_status,
}
use ai_repo.Approvals.Create.{
  AutonomousCognitionReport, create_approval_from_autonomy, request_approvals, request_approval,
  unresolved_approval_exists,
}
use ai_repo.Approvals.Accounted.{here, next, approves, creates, AreAccounted, Changes-AreAccounted}
use ai_repo.Approvals.Answers.{is_decided, MayApprove, approve_item-approves}

abbrev report : AutonomousCognitionReport
report = record {
  id = "report-1";
  product_id = some "cpu-1";
  interventions =
      record {
        kind = "policy_escalation";
        target = "pricing";
        agent_kind = "watcher";
        requires_human_approval = true;
      }
      ∷ [];
}

abbrev empty : Store
empty = record { rest = []; audit = [] }

abbrev id : String
id = "approval:policy_escalation:pricing:cpu-1"

abbrev founder : Decider
founder = record {
  principal = record { actor = "super_admin:api-key"; role = super_admin; authenticated = true };
  note = some "seen";
  trace_id = "trace-1";
  now = 7;
}

abbrev requested : Store
requested = (create_approval_from_autonomy (λ _. true) report empty).1

abbrev granted : Store
granted = (approve_item founder id requested).1

granted_runs :
    Option.map (λ (a : ApprovalItem). a.status) (approval_by_id id granted.rest) ≡ some approved
unfolding approval_by_id approve_item create_approval_from_autonomy request_approvals
    request_approval update_approval upsert_approval unresolved_approval_exists approve
    decide_approval set_approval_status
granted_runs = refl

approve_item-approves_example :
    ((is_decided (approve_item founder id requested).0 ≡ true) ↔ (
      (a : ApprovalItem) × (approval_by_id id requested.rest ≡ some a)
      × MayApprove founder requested a))
    × (approval_by_id id granted.rest ≡ (
        if is_decided (approve_item founder id requested).0 && id == id
        then Option.map (with_status founder approved) (approval_by_id id requested.rest)
        else approval_by_id id requested.rest))
approve_item-approves_example = approve_item-approves founder id requested id

empty-AreAccounted : AreAccounted empty
unfolding AreAccounted
empty-AreAccounted a m = absurd m

Changes-AreAccounted_example : AreAccounted granted
Changes-AreAccounted_example =
    Changes-AreAccounted (next (next here (creates (λ _. true) report)) (approves founder id))
      empty-AreAccounted

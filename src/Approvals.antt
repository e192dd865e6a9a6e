-- ===== src/Approvals.antt =====
-- Approvals of actions that need a human: backend/app/api/approvals.py and `OpsService` of
-- backend/app/services/ops.py. The texts that explain an approval are left out.
pub mod Decide
pub mod Create
pub mod Members
pub mod Accounted
pub mod Answers
use ai_repo.Prelude.{
  ℕ, String, Option, none, some, Bool, true, false, List, [], ◌∷◌, ◌++◌, map, ◌==◌, if◌then◌else◌,
}
use ai_repo.Access.{AutonomyLevel, ApprovalStatus}
use ai_repo.Access.Gate.{World}

pub record ApprovalItem : Type 0 where
  pub id : String
  pub action_type : String
  pub affected_entities : List String
  pub risk_level : AutonomyLevel
  pub requested_by_agent : Option String
  pub status : ApprovalStatus
  pub decided_at : Option ℕ
  pub decided_by : Option String
  pub decision_note : Option String
  pub trace_id : String

-- The database: the approvals and the audit events
abbrev pub Store : Type 0
Store = World (List ApprovalItem)

-- `approval_by_id`
unfoldable pub approval_by_id : String → List ApprovalItem → Option ApprovalItem
approval_by_id id [] = none
approval_by_id id (a ∷ approvals) = if a.id == id then some a else approval_by_id id approvals

-- `update_approval`: nothing is added
unfoldable pub update_approval : ApprovalItem → List ApprovalItem → List ApprovalItem
update_approval approval approvals =
    map (λ (a : ApprovalItem). if a.id == approval.id then approval else a) approvals

-- `upsert_approval`
unfoldable pub upsert_approval : ApprovalItem → List ApprovalItem → List ApprovalItem
unfolding update_approval approval_by_id
upsert_approval approval approvals = elim (approval_by_id approval.id approvals) [
  | none ↦ approvals ++ approval ∷ []
  | some _ ↦ update_approval approval approvals
]

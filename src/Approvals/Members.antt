-- ===== src/Approvals/Members.antt =====
-- Which approvals the store holds after a change: backend/app/graph/ops_repository.py and
-- `create_approval_from_autonomy` of backend/app/services/ops.py.
use ai_repo.Prelude.{
  String, ◌≡◌, ap, ◌⊎◌, inl, inr, Bool, List, [], ◌∷◌, ◌++◌, ◌==◌, if◌then◌else◌, Bool-cases,
  Option-cases, In, In-map, In-append_cases,
}
use ai_repo.Access.{pending}
use ai_repo.Approvals.{ApprovalItem, approval_by_id, update_approval, upsert_approval}
use ai_repo.Approvals.Create.{
  AutonomousCognitionReport, AutonomousIntervention, approval_of, existing, request_approval,
  request_approvals,
}

pub update-In :
    (approval : ApprovalItem) (approvals : List ApprovalItem) (a : ApprovalItem)
    → In a (update_approval approval approvals)
    → (a ≡ approval) ⊎ In a approvals
unfolding update_approval
update-In approval approvals a m =
    let (old, k, e) =
      In-map (λ (b : ApprovalItem). if b.id == approval.id then approval else b) a approvals m in
    elim (Bool-cases (old.id == approval.id)) [
      | inl same ↦ inl (rw same at e)
      | inr differ ↦ let e' : a ≡ old = rw differ at e in inr (rw e' k)
    ]

pub upsert-In :
    (approval : ApprovalItem) (approvals : List ApprovalItem) (a : ApprovalItem)
    → In a (upsert_approval approval approvals)
    → (a ≡ approval) ⊎ In a approvals
unfolding upsert_approval
upsert-In approval approvals a m = elim (Option-cases (approval_by_id approval.id approvals)) [
  | inl new ↦
      let m' : In a (approvals ++ approval ∷ []) = rw (upsert_approval, new) at m in
      elim (In-append_cases a approvals (approval ∷ []) m') [
        | inl k ↦ inr k
        | inr k ↦ elim k [ inl e ↦ inl e | inr n ↦ absurd n ]
      ]
  | inr (old, is) ↦
      let m' : In a (update_approval approval approvals) = rw (upsert_approval, is) at m in
      update-In approval approvals a m'
]

module _ (answers : String → Bool) (report : AutonomousCognitionReport) where
  -- What an agent asks for waits.
  request-In :
      (intervention : AutonomousIntervention) (approvals : List ApprovalItem) (a : ApprovalItem)
      → In a (request_approval answers report intervention approvals).1
      → (a.status ≡ pending) ⊎ In a approvals
  unfolding request_approval
  request-In intervention approvals a m =
      let fresh = approval_of answers report intervention in
      elim (Option-cases (existing answers report fresh.id approvals)) [
        | inr (old, is) ↦ let m' : In a approvals = rw (request_approval, is) at m in inr m'
        | inl none_open ↦
            let m' : In a (upsert_approval fresh approvals) =
              rw (request_approval, none_open) at m in
            elim (upsert-In fresh approvals a m') [
              | inl e ↦ inl (ap (λ (b : ApprovalItem). b.status) e)
              | inr k ↦ inr k
            ]
      ]

  pub requests-In :
      (interventions : List AutonomousIntervention) (approvals : List ApprovalItem)
      (a : ApprovalItem)
      → In a (request_approvals answers report interventions approvals).1
      → (a.status ≡ pending) ⊎ In a approvals
  unfolding request_approvals
  requests-In [] approvals a m = inr m
  requests-In (intervention ∷ interventions) approvals a m =
      elim (Bool-cases intervention.requires_human_approval) [
        | inr skips ↦ requests-In interventions approvals a (rw skips at m)
        | inl asks ↦
            elim (requests-In interventions
              (request_approval answers report intervention approvals).1 a (rw asks at m)) [
                | inl waits ↦ inl waits
                | inr k ↦ request-In intervention approvals a k
              ]
      ]

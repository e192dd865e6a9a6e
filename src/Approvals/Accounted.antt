-- ===== src/Approvals/Accounted.antt =====
-- Every decision on an approval is accounted for in the audit.
use ai_repo.Prelude.{
  String, ◌≡◌, ◌≢◌, ◌≤◌, refl, ◌⊎◌, inl, inr, some, Bool, true, false, List, ◌∷◌, Bool-cases,
  Option-cases, In, arith,
}
use ai_repo.Access.{
  level_3, ApprovalStatus, pending, approved, rejected, deferred, reviewed, has_role, super_admin,
  role_rank,
}
use ai_repo.Access.Gate.{AuditEvent}
use ai_repo.Approvals.{ApprovalItem, Store, approval_by_id}
use ai_repo.Approvals.Decide.{
  Decider, Outcome, is_level_3, status_text, audit_of, with_status, set_approval_status,
  decide_approval, found, is_sensitive, approve, approve_item, reject_item, defer_item,
  mark_item_reviewed,
}
use ai_repo.Approvals.Create.{AutonomousCognitionReport, create_approval_from_autonomy}
use ai_repo.Approvals.Members.{update-In, requests-In}

-- One request to the approvals, or an audit event that another part of the application writes
pub data Change : Store → Store → Type 0 where
  approves : {s : Store} (decider : Decider) (id : String) → Change s (approve_item decider id s).1
  rejects : {s : Store} (decider : Decider) (id : String) → Change s (reject_item decider id s).1
  defers : {s : Store} (decider : Decider) (id : String) → Change s (defer_item decider id s).1
  reviews :
      {s : Store} (decider : Decider) (id : String) → Change s (mark_item_reviewed decider id s).1
  creates :
      {s : Store} (answers : String → Bool) (report : AutonomousCognitionReport)
      → Change s (create_approval_from_autonomy answers report s).1
  logs : {s : Store} (event : AuditEvent) → Change s (record s { audit = event ∷ s.audit })

pub data Changes (s : Store) : Store → Type 0 where
  here : Changes s s
  next : {t u : Store} → Changes s t → Change t u → Changes s u

-- The role that decides may decide this action so.
pub IsAllowed : ApprovalItem → AuditEvent → Type 0
IsAllowed approval event =
    (approval.status ≢ approved)
    ⊎ ((approval.risk_level ≢ level_3)
        × ((is_sensitive approval.action_type ≡ false)
            ⊎ (role_rank super_admin ≤ role_rank event.role)))

-- An approval waits, or an audit event names it, its status and the actor who set the status.
pub IsAccounted : List AuditEvent → ApprovalItem → Type 0
IsAccounted events approval =
    (approval.status ≡ pending)
    ⊎ ((e : AuditEvent) × In e events
        × (e.target ≡ some approval.id)
        × (e.approval_status ≡ some approval.status)
        × (approval.decided_by ≡ some e.actor)
        × IsAllowed approval e)

unfoldable pub AreAccounted : Store → Type 0
AreAccounted store = (a : ApprovalItem) → In a store.rest → IsAccounted store.audit a

earlier :
    (event : AuditEvent) (events : List AuditEvent) (a : ApprovalItem)
    → IsAccounted events a
    → IsAccounted (event ∷ events) a
unfolding IsAccounted
earlier event events a (inl waits) = inl waits
earlier event events a (inr (e, m, target, status, actor, allowed)) =
    inr (e, inr m, target, status, actor, allowed)

module _ (store : Store) (accounted : AreAccounted store) where
  logged-AreAccounted :
      (event : AuditEvent) → AreAccounted (record store { audit = event ∷ store.audit })
  unfolding AreAccounted
  logged-AreAccounted event a m = earlier event store.audit a (accounted a m)

  module _ (decider : Decider) where
    set-AreAccounted :
        (status : ApprovalStatus) (action : String) (approval : ApprovalItem)
        → IsAllowed
            (with_status decider status approval)
            (audit_of decider approval action (status_text status) 200 status)
        → AreAccounted (set_approval_status decider status action approval store).1
    unfolding AreAccounted set_approval_status IsAccounted
    set-AreAccounted status action approval allowed a m =
        elim (update-In (with_status decider status approval) store.rest a m) [
          | inl e ↦ rw e (
              inr (
                audit_of decider approval action (status_text status) 200 status,
                inl refl,
                refl,
                refl,
                refl,
                allowed,
              ))
          | inr k ↦
              earlier (audit_of decider approval action (status_text status) 200 status) store.audit
                a (accounted a k)
        ]

    decide-AreAccounted :
        (is_approved : Bool) (approval : ApprovalItem)
        → (is_approved ≡ false)
          ⊎ ((is_sensitive approval.action_type ≡ false)
              ⊎ (role_rank super_admin ≤ role_rank decider.principal.role))
        → AreAccounted (decide_approval decider is_approved approval store).1
    unfolding decide_approval IsAllowed
    decide-AreAccounted false approval may =
        set-AreAccounted rejected "approval.reject" approval (inl λ e. cc)
    decide-AreAccounted true approval (inl e) = cc
    decide-AreAccounted true approval (inr may) =
        elim (Bool-cases (is_level_3 approval.risk_level)) [
          | inl manual ↦
              rw (decide_approval, manual)
                (logged-AreAccounted (
                  audit_of decider approval "approval.blocked_level_3" "blocked" 403
                    approval.status))
          | inr bounded ↦
              let level : approval.risk_level ≢ level_3 =
                λ e. (let h : true ≡ false = rw e at bounded in cc) in
              rw (decide_approval, bounded)
                (set-AreAccounted approved "approval.approve" approval (inr (level, may)))
        ]

    approve-AreAccounted :
        (approval : ApprovalItem) → AreAccounted (approve decider approval store).1
    unfolding approve
    approve-AreAccounted approval = elim (Bool-cases (is_level_3 approval.risk_level)) [
      | inl manual ↦ rw (approve, manual) accounted
      | inr bounded ↦ elim (Bool-cases (is_sensitive approval.action_type)) [
        | inr ordinary ↦
            rw (approve, bounded, ordinary) (decide-AreAccounted true approval (inr (inl ordinary)))
        | inl sensitive ↦ elim (Bool-cases (has_role decider.principal super_admin)) [
          | inr weak ↦ rw (approve, bounded, sensitive, weak) accounted
          | inl strong ↦
              rw (approve, bounded, sensitive, strong)
                (decide-AreAccounted true approval (inr (inr (ground arith))))
        ]
      ]
    ]

    found-AreAccounted :
        (id : String) (handle : ApprovalItem → Store → Outcome × Store)
        → ((approval : ApprovalItem) → AreAccounted (handle approval store).1)
        → AreAccounted (found decider id handle store).1
    found-AreAccounted id handle all = elim (Option-cases (approval_by_id id store.rest)) [
      | inl missing ↦ rw (found, missing) accounted
      | inr (approval, is) ↦ rw (found, is) (all approval)
    ]

module _ (answers : String → Bool) (report : AutonomousCognitionReport) where
  create-AreAccounted :
      (store : Store)
      → AreAccounted store
      → AreAccounted (create_approval_from_autonomy answers report store).1
  unfolding AreAccounted IsAccounted create_approval_from_autonomy
  create-AreAccounted store accounted a m =
      elim (requests-In answers report report.interventions store.rest a m) [
        | inl waits ↦ inl waits
        | inr k ↦ accounted a k
      ]

Change-AreAccounted : {s t : Store} → Change s t → AreAccounted s → AreAccounted t
unfolding approve_item reject_item defer_item mark_item_reviewed IsAllowed
Change-AreAccounted {s} (approves decider id) h =
    found-AreAccounted s h decider id (approve decider) (approve-AreAccounted s h decider)
Change-AreAccounted {s} (rejects decider id) h =
    found-AreAccounted s h decider id (decide_approval decider false)
      (λ approval. decide-AreAccounted s h decider false approval (inl refl))
Change-AreAccounted {s} (defers decider id) h =
    found-AreAccounted s h decider id (set_approval_status decider deferred "approval.defer")
      (λ approval. set-AreAccounted s h decider deferred "approval.defer" approval (inl λ e. cc))
Change-AreAccounted {s} (reviews decider id) h =
    found-AreAccounted s h decider id
      (set_approval_status decider reviewed "approval.mark_reviewed")
      (λ approval.
        set-AreAccounted s h decider reviewed "approval.mark_reviewed" approval (inl λ e. cc))
Change-AreAccounted {s} (creates answers report) h = create-AreAccounted answers report s h
Change-AreAccounted {s} (logs event) h = logged-AreAccounted s h event

-- Whatever is requested, decided and logged from a store where it holds: each approval waits, or an audit event
-- names it, its status and who set it; and an approved one is not of level 3, and of the actions
-- for super admins only with a super admin in that event.
pub Changes-AreAccounted : {s t : Store} → Changes s t → AreAccounted s → AreAccounted t
Changes-AreAccounted here h = h
Changes-AreAccounted (next reach step) h = Change-AreAccounted step (Changes-AreAccounted reach h)

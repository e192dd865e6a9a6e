-- ===== src/Approvals/Answers.antt =====
-- What an approval request answers and changes: `approve_item` of backend/app/api/approvals.py.
use ai_repo.Prelude.{
  String, ◌≡◌, ◌≢◌, ◌≤◌, refl, sym, ap, ◌∙◌, ◌↔◌, ◌⊎◌, inl, inr, some, Bool, true, false, not, ◌&&◌,
  List, [], ◌∷◌, ◌==◌, eq_iff, if◌then◌else◌, Bool-cases, Option-cases, is_some, arith,
}
use mathlib.Core.Option.{some-injective}
use mathlib.Core.Option
use ai_repo.Access.{
  AutonomyLevel, level_0, level_1, level_2, level_3, approved, has_role, super_admin, role_rank,
}
use ai_repo.Approvals.{ApprovalItem, Store, approval_by_id, update_approval}
use ai_repo.Approvals.Decide.{
  Decider, Outcome, http_error, decided, is_level_3, with_status, set_approval_status,
  decide_approval, found, is_sensitive, approve, approve_item,
}

pub is_decided : Outcome → Bool
is_decided (http_error status_code detail) = false
is_decided (decided response) = true

approval_by_id-id :
    (id : String) (approvals : List ApprovalItem) (a : ApprovalItem)
    → approval_by_id id approvals ≡ some a
    → a.id ≡ id
unfolding approval_by_id
approval_by_id-id id [] a h = cc
approval_by_id-id id (b ∷ approvals) a h = elim (Bool-cases (b.id == id)) [
  | inl same ↦
      let e : b ≡ a = (let h' : some b ≡ some a = rw same at h in cc) in
      rw (← e) ((eq_iff b.id id).0 same)
  | inr differ ↦ approval_by_id-id id approvals a (rw differ at h)
]

approval_by_id-update :
    (other : String) (new : ApprovalItem) (approvals : List ApprovalItem)
    → approval_by_id other (update_approval new approvals) ≡ (
        if is_some (approval_by_id new.id approvals) && other == new.id
        then some new
        else approval_by_id other approvals)
unfolding approval_by_id update_approval
approval_by_id-update other new [] = refl
approval_by_id-update other new (b ∷ approvals) =
    let later = approval_by_id-update other new approvals in
    elim (Bool-cases (b.id == new.id)) [
      | inl same ↦ rw same ground (
        arith,
        later,
        eq_iff b.id new.id,
        eq_iff b.id other,
        eq_iff new.id other,
        eq_iff other new.id,
      )
      | inr differ ↦ rw differ ground (
        arith,
        later,
        eq_iff b.id new.id,
        eq_iff b.id other,
        eq_iff new.id other,
        eq_iff other new.id,
      )
    ]

is_level_3_iff : (level : AutonomyLevel) → (is_level_3 level ≡ false) ↔ (level ≢ level_3)
is_level_3_iff level_0 = (λ _ e. cc, λ _. refl)
is_level_3_iff level_1 = (λ _ e. cc, λ _. refl)
is_level_3_iff level_2 = (λ _ e. cc, λ _. refl)
is_level_3_iff level_3 = (λ h. cc, λ other. absurd (other refl))

module _ (decider : Decider) (store : Store) where
  -- What a decider may approve
  unfoldable pub MayApprove : ApprovalItem → Type 0
  MayApprove a =
      (a.risk_level ≢ level_3)
      × ((is_sensitive a.action_type ≡ false)
          ⊎ (role_rank super_admin ≤ role_rank decider.principal.role))

  IsWritten : ApprovalItem → Outcome × Store → Type 0
  IsWritten a result = result.1.rest ≡ (
      if is_decided result.0
      then update_approval (with_status decider approved a) store.rest
      else store.rest)

  approve-MayApprove :
      (a : ApprovalItem)
      → ((is_decided (approve decider a store).0 ≡ true) ↔ MayApprove a)
        × IsWritten a (approve decider a store)
  unfolding approve decide_approval set_approval_status is_decided MayApprove IsWritten
  approve-MayApprove a =
      let level = is_level_3_iff a.risk_level in
      elim (Bool-cases (is_level_3 a.risk_level)) [
        | inl manual ↦
            rw (approve, manual)
              ((λ h. cc, λ may. let clash : true ≡ false = sym manual ∙ level.1 may.0 in cc), refl)
        | inr bounded ↦
            elim (Bool-cases
              (is_sensitive a.action_type && not (has_role decider.principal super_admin))) [
                | inl weak ↦
                    rw (approve, bounded, weak)
                      (
                        (
                          λ h. cc,
                          λ may. elim may.1 [
                            | inl ordinary ↦ ground arith
                            | inr rank ↦ ground arith
                          ],
                        ),
                        refl,
                      )
                | inr strong ↦
                    let may : (is_sensitive a.action_type ≡ false)
                        ⊎ (role_rank super_admin ≤ role_rank decider.principal.role) =
                      elim (Bool-cases (is_sensitive a.action_type)) [
                        | inr ordinary ↦ inl ordinary
                        | inl sensitive ↦ inr (ground arith)
                      ] in
                    rw (approve, bounded, strong) ((λ _. (level.0 bounded, may), λ _. refl), refl)
              ]
      ]

module _ (decider : Decider) (id : String) (store : Store) where
  granted-read :
      (a : ApprovalItem)
      → approval_by_id id store.rest ≡ some a
      → (other : String)
      → approval_by_id other (approve decider a store).1.rest ≡ (
          if is_decided (approve decider a store).0 && other == id
          then some (with_status decider approved a)
          else approval_by_id other store.rest)
  unfolding IsWritten
  granted-read a is other =
      let written = (approve-MayApprove decider store a).1 in
      let own = approval_by_id-id id store.rest a is in
      elim (Bool-cases (is_decided (approve decider a store).0)) [
        | inl done ↦
            let there : approval_by_id a.id store.rest ≡ some a =
              ap (λ x. approval_by_id x store.rest) own ∙ is in
            let update = approval_by_id-update other (with_status decider approved a) store.rest in
            rw (written, done, update, there, sym own) refl
        | inr refused ↦ rw (written, refused) refl
      ]

  -- An approval is granted exactly if there is one with this id, its risk is not of level 3, and its action is an
  -- ordinary one or the decider a super admin. Read back, the approval with this id is then approved, by this
  -- decider; every other approval, and all of them if it is not granted, stay the same.
  pub approve_item-approves :
      (other : String)
      → ((is_decided (approve_item decider id store).0 ≡ true) ↔ (
          (a : ApprovalItem) × (approval_by_id id store.rest ≡ some a)
          × MayApprove decider store a))
        × (approval_by_id other (approve_item decider id store).1.rest ≡ (
            if is_decided (approve_item decider id store).0 && other == id
            then Option.map (with_status decider approved) (approval_by_id id store.rest)
            else approval_by_id other store.rest))
  unfolding approve_item is_decided
  approve_item-approves other = elim (Option-cases (approval_by_id id store.rest)) [
    | inl missing ↦ rw (approve_item, found, missing) ((λ h. cc, λ w. let clash = w.1 in cc), refl)
    | inr (a, is) ↦
        let may = (approve-MayApprove decider store a).0 in
        rw (approve_item, found, is)
          (
            (
              λ h. (a, refl, may.0 h),
              λ w. let same : a ≡ w.0 = some-injective a w.0 w.1 in may.1 (rw same w.2),
            ),
            granted-read a is other,
          )
  ]

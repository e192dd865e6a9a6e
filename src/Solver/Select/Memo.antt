-- ===== src/Solver/Select/Memo.antt =====
-- The choices of backend/app/services/build_solver.py with their cache of answers, against choices
-- that ask the compatibility engine each time.
use mathlib.Core.Path.{subst}
use mathlib.Core.Option.{some-injective}
use mathlib.Core.List.{append-nil, append_assoc}
use ai_repo.Prelude.{
  String, ◌≡◌, refl, sym, ap, ◌∙◌, Option, none, some, Bool, true, false, not, ◌&&◌, List, [], ◌∷◌,
  ◌++◌, Bool-cases, Option-cases, inl, inr, if◌then◌else◌, eq_iff, bind-eq-some,
}
use ai_repo.Runtime.{Builtins}
use ai_repo.Domain.{SelectedComponents, slots}
use ai_repo.Repository.{Repository}
use ai_repo.Compatibility.{CompatibilityResponse, check}
use ai_repo.Solver.Parts.{CandidateBuild}
use ai_repo.Solver.Select.{
  Signature, same_id, same_signature, is_used, Verdicts, remembered, full_request, Chosen, verdict,
  graph_valid, first_unique_graph_valid, keep, select_from, pools_of, choose_builds,
}

same_id→≡ : (a b : Option String) → same_id a b ≡ true → a ≡ b
unfolding same_id
same_id→≡ none none e = refl
same_id→≡ none (some b) e = cc
same_id→≡ (some a) none e = cc
same_id→≡ (some a) (some b) e = ap some ((eq_iff a b).0 e)

pub same_signature→≡ : (a b : Signature) → same_signature a b ≡ true → a ≡ b
unfolding same_signature
same_signature→≡ [] [] e = refl
same_signature→≡ [] (b ∷ bs) e = cc
same_signature→≡ (a ∷ as') [] e = cc
same_signature→≡ (a ∷ as') (b ∷ bs) e = elim (Bool-cases (same_id a b)) [
  | inl h ↦
      let t : same_signature as' bs ≡ true = rw h at e in
      rw (same_id→≡ a b h, same_signature→≡ as' bs t) refl
  | inr h ↦ cc (rw h at e)
]

-- The selection with these ids in its slots.
of_slots : Signature → SelectedComponents
of_slots (c ∷ g ∷ m ∷ r ∷ k ∷ o ∷ s ∷ p ∷ rest) = record {
  cpu_id = c;
  gpu_id = g;
  motherboard_id = m;
  ram_id = r;
  case_id = k;
  cooler_id = o;
  storage_id = s;
  psu_id = p;
}
of_slots others = record {
  cpu_id = none;
  gpu_id = none;
  motherboard_id = none;
  ram_id = none;
  case_id = none;
  cooler_id = none;
  storage_id = none;
  psu_id = none;
}

slots_inj : (s t : SelectedComponents) → slots s ≡ slots t → s ≡ t
unfolding of_slots
slots_inj s t e = ap of_slots e

module _ {F : Type 0} ⦃py : Builtins F⦄ (repository : Repository F) where
  -- Every remembered answer is the engine's.
  abbrev pub AreFaithful : Verdicts F → Type 0
  AreFaithful verdicts =
      (s : SelectedComponents) (r : CompatibilityResponse F)
      → remembered (slots s) verdicts ≡ some r
      → check repository (full_request s) ≡ some r

  pub nil-AreFaithful : AreFaithful []
  unfolding remembered
  nil-AreFaithful s r e = cc

  cons-AreFaithful :
      (s : SelectedComponents) (r : CompatibilityResponse F) (verdicts : Verdicts F)
      → AreFaithful verdicts
      → check repository (full_request s) ≡ some r
      → AreFaithful ((slots s, r) ∷ verdicts)
  unfolding remembered
  cons-AreFaithful s r verdicts h c t q e = elim (Bool-cases (same_signature (slots s) (slots t))) [
    | inl k ↦
        let e' : some r ≡ some q = rw k at e in
        rw (sym (slots_inj s t (same_signature→≡ (slots s) (slots t) k))) (c ∙ e')
    | inr k ↦ h t q (rw k at e)
  ]

  pub verdict-AreFaithful :
      (s : SelectedComponents) (verdicts : Verdicts F) {r : CompatibilityResponse F}
      {verdicts' : Verdicts F}
      → AreFaithful verdicts
      → verdict repository s verdicts ≡ some (r, verdicts')
      → (check repository (full_request s) ≡ some r) × AreFaithful verdicts'
  unfolding verdict
  verdict-AreFaithful s verdicts {r} {verdicts'} h e =
      elim (Option-cases (remembered (slots s) verdicts)) [
        | inl k ↦
            let (q, c, found) =
              bind-eq-some (check repository (full_request s)) _ (rw (k, verdict) at e) in
            let same = some-injective _ _ found in
            (
              c ∙ ap (λ x. some x.0) same,
              subst AreFaithful (ap (λ x. x.1) same) (cons-AreFaithful s q verdicts h c),
            )
        | inr (q, k) ↦
            let same = some-injective _ _ (rw (k, verdict) at e) in
            (h s q k ∙ ap (λ x. some x.0) same, subst AreFaithful (ap (λ x. x.1) same) h)
      ]

  -- The engine answers that the build is valid.
  unfoldable pub is_accepted : CandidateBuild F → Bool
  is_accepted c = elim (check repository (full_request c.selection)) [
    | none ↦ false
    | some r ↦ r.valid
  ]

  pub graph_valid-AreFaithful :
      (c : CandidateBuild F) (verdicts : Verdicts F) {ok : Bool} {verdicts' : Verdicts F}
      → AreFaithful verdicts
      → graph_valid repository c.selection verdicts ≡ some (ok, verdicts')
      → (ok ≡ is_accepted c) × AreFaithful verdicts'
  unfolding graph_valid is_accepted
  graph_valid-AreFaithful c verdicts {ok} {verdicts'} h e =
      let ((r, v), k, found) = bind-eq-some (verdict repository c.selection verdicts) _ e in
      let same = some-injective _ _ found in
      let (asked, h') = verdict-AreFaithful c.selection verdicts h k in
      (
        rw (asked, is_accepted) (sym (ap (λ x. x.0) same)),
        subst AreFaithful (ap (λ x. x.1) same) h',
      )

  -- The first build of the pool that is not yet in use and that the engine accepts.
  unfoldable pub first_accepted :
      List (CandidateBuild F) → List Signature → Option (CandidateBuild F)
  first_accepted [] used = none
  first_accepted (c ∷ pool) used =
      let rest = first_accepted pool used in
      if not (is_used used (slots c.selection)) && is_accepted c then some c else rest

  abbrev Found : Option (CandidateBuild F) → Option (CandidateBuild F) × Verdicts F → Type 0
  Found answer out = (out.0 ≡ answer) × AreFaithful out.1

  -- Where it returns, `_first_unique_graph_valid` finds the first acceptable build, whatever true
  -- answers the cache holds.
  first_unique-Found :
      (pool : List (CandidateBuild F)) (used : List Signature) (verdicts : Verdicts F)
      {out : Option (CandidateBuild F) × Verdicts F}
      → AreFaithful verdicts
      → first_unique_graph_valid repository pool used verdicts ≡ some out
      → Found (first_accepted pool used) out
  unfolding first_unique_graph_valid first_accepted
  first_unique-Found [] used verdicts h e =
      let same = some-injective _ _ e in subst (Found none) same (refl, h)
  first_unique-Found (c ∷ pool) used verdicts {out} h e =
      elim (Bool-cases (is_used used (slots c.selection))) [
        | inl k ↦
            rw k (first_unique-Found pool used verdicts h (rw (k, first_unique_graph_valid) at e))
        | inr k ↦
            let ((ok, v), g, e') =
              bind-eq-some (graph_valid repository c.selection verdicts) _
                (rw (k, first_unique_graph_valid) at e) in
            let (same, h') = graph_valid-AreFaithful c verdicts h g in
            elim (Bool-cases ok) [
              | inl t ↦
                  let found = some-injective _ _ (rw t at e') in
                  rw (k, ← same, t) (subst (Found (some c)) found (refl, h'))
              | inr t ↦ rw (k, ← same, t) (first_unique-Found pool used v h' (rw t at e'))
            ]
      ]

  -- The choices with no cache: of each pool the first acceptable build, under its label.
  unfoldable pub picks :
      List (String × List (CandidateBuild F)) → List Signature → List (String × CandidateBuild F)
  picks [] used = []
  picks ((label, pool) ∷ pools) used = elim (first_accepted pool used) [
    | none ↦ picks pools used
    | some c ↦ (label, c) ∷ picks pools (slots c.selection ∷ used)
  ]

  select_from-picks :
      (pools : List (String × List (CandidateBuild F))) (chosen : Chosen F) {out : Chosen F}
      → AreFaithful chosen.verdicts
      → select_from repository pools chosen ≡ some out
      → (out.selected ≡ chosen.selected ++ picks pools chosen.used) × AreFaithful out.verdicts
  unfolding select_from picks keep
  select_from-picks [] chosen h e =
      let same = some-injective _ _ e in
      (
        sym (ap (λ (c : Chosen F). c.selected) same) ∙ sym (append-nil chosen.selected),
        subst (λ (c : Chosen F). AreFaithful c.verdicts) same h,
      )
  select_from-picks ((label, pool) ∷ pools) chosen h e =
      let ((o, v), found, e') =
        bind-eq-some (first_unique_graph_valid repository pool chosen.used chosen.verdicts) _ e in
      let (same, h') = first_unique-Found pool chosen.used chosen.verdicts h found in
      elim (Option-cases (first_accepted pool chosen.used)) [
        | inl k ↦
            let rest : select_from repository pools
                  (keep label none (record chosen { verdicts = v }))
                ≡ some _ =
              rw (same, k) at e' in
            rw (k, picks) (select_from-picks pools (record chosen { verdicts = v }) h' rest)
        | inr (c, k) ↦
            let rest : select_from repository pools
                  (keep label (some c) (record chosen { verdicts = v }))
                ≡ some _ =
              rw (same, k) at e' in
            let (answer, faithful) =
              select_from-picks pools (keep label (some c) (record chosen { verdicts = v })) h'
                rest in
            rw (k, picks) (answer ∙ append_assoc chosen.selected ((label, c) ∷ []) _, faithful)
      ]

  -- Where it returns, the loop of `_select_multi_solution` takes from each ranking, by performance, by value and
  -- by balance, the first build that the engine accepts and that was not taken before; and the cache
  -- that it leaves holds the engine's answers.
  pub select-picks :
      (valid : List (CandidateBuild F)) (verdicts : Verdicts F) {out : Chosen F}
      → AreFaithful verdicts
      → choose_builds repository valid verdicts ≡ some out
      → (out.selected ≡ picks (pools_of valid) []) × AreFaithful out.verdicts
  unfolding choose_builds
  select-picks valid verdicts h e =
      select_from-picks (pools_of valid) (record { selected = []; used = []; verdicts = verdicts })
        h e

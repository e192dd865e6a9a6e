-- ===== src/Solver/Select/Total.antt =====
-- The choices of backend/app/services/build_solver.py return wherever the compatibility engine does.
use ai_repo.Prelude.{
  String, ◌≡◌, refl, Option, some, List, [], ◌∷◌, Bool-cases, Option-cases, inl, inr, All,
  bind-returns,
}
use ai_repo.Runtime.{Builtins}
use ai_repo.Domain.{slots}
use ai_repo.Repository.{Repository}
use ai_repo.Compatibility.{CompatibilityResponse, check}
use ai_repo.Solver.Parts.{CandidateBuild}
use ai_repo.Solver.Select.{
  Signature, is_used, Verdicts, remembered, full_request, Chosen, verdict, graph_valid,
  first_unique_graph_valid, keep, select_from, pools_of, choose_builds,
}
use ai_repo.Solver.Select.Sorted.{sorted_desc-All}

module _ {F : Type 0} ⦃py : Builtins F⦄ (repository : Repository F) where
  -- The engine returns an answer for this build.
  abbrev pub IsCheckable : CandidateBuild F → Type 0
  IsCheckable c =
      (r : CompatibilityResponse F) × (check repository (full_request c.selection) ≡ some r)

  pub verdict-returns :
      (c : CandidateBuild F) (verdicts : Verdicts F)
      → IsCheckable c
      → (out : CompatibilityResponse F × Verdicts F) × (verdict repository c.selection verdicts
          ≡ some out)
  unfolding verdict
  verdict-returns c verdicts (r, e) =
      elim (Option-cases (remembered (slots c.selection) verdicts)) [
        | inl k ↦ ((r, (slots c.selection, r) ∷ verdicts), rw (k, verdict, e) refl)
        | inr (q, k) ↦ ((q, verdicts), rw (k, verdict) refl)
      ]

  first_unique-returns :
      (pool : List (CandidateBuild F)) (used : List Signature) (verdicts : Verdicts F)
      → All IsCheckable pool
      → (out : Option (CandidateBuild F) × Verdicts F) × (first_unique_graph_valid repository pool
            used verdicts
          ≡ some out)
  unfolding first_unique_graph_valid graph_valid
  first_unique-returns [] used verdicts h = (_, refl)
  first_unique-returns (c ∷ pool) used verdicts h =
      elim (Bool-cases (is_used used (slots c.selection))) [
        | inl u ↦
            let (out, e) = first_unique-returns pool used verdicts h.1 in
            (out, rw (u, first_unique_graph_valid) e)
        | inr u ↦
            let ((r, v), e) = verdict-returns c verdicts h.0 in
            elim (Bool-cases r.valid) [
              | inl t ↦ ((some c, v), rw (u, first_unique_graph_valid, e, graph_valid, t) refl)
              | inr t ↦
                  let (out, e') = first_unique-returns pool used v h.1 in
                  (out, rw (u, first_unique_graph_valid, e, graph_valid, t) e')
            ]
      ]

  select_from-returns :
      (pools : List (String × List (CandidateBuild F))) (chosen : Chosen F)
      → All (λ p. All IsCheckable p.1) pools
      → (out : Chosen F) × (select_from repository pools chosen ≡ some out)
  unfolding select_from
  select_from-returns [] chosen h = (_, refl)
  select_from-returns ((label, pool) ∷ pools) chosen h =
      let (found, e) = first_unique-returns pool chosen.used chosen.verdicts h.0 in
      bind-returns (first_unique_graph_valid repository pool chosen.used chosen.verdicts) _ e
        (select_from-returns pools (keep label found.0 (record chosen { verdicts = found.1 })) h.1)

  -- The loop of `_select_multi_solution` returns.
  pub choose_builds-returns :
      (valid : List (CandidateBuild F)) (verdicts : Verdicts F)
      → All IsCheckable valid
      → (out : Chosen F) × (choose_builds repository valid verdicts ≡ some out)
  unfolding choose_builds
  choose_builds-returns valid verdicts h =
      select_from-returns (pools_of valid)
        (record { selected = []; used = []; verdicts = verdicts })
        (
          sorted_desc-All (λ (c : CandidateBuild F). c.performance_score) IsCheckable valid h,
          (
            sorted_desc-All (λ (c : CandidateBuild F). c.value_score) IsCheckable valid h,
            (sorted_desc-All (λ (c : CandidateBuild F). c.balanced_score) IsCheckable valid h, tt),
          ),
        )

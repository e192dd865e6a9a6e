-- ===== src/Solver/Score/Checked.antt =====
-- Which builds backend/app/services/build_solver.py can evaluate, and what the verdict rests on.
use ai_repo.Prelude.{
  ℕ, ◌≡◌, refl, ◌∙◌, some, true, ◌⊎◌, List, [], ◌∷◌, Bool-cases, inl, inr, In, All, All-In,
}
use ai_repo.Runtime.{Builtins}
use ai_repo.Domain.{ComponentKind, ComponentNode}
use ai_repo.Performance.{Numpy, calculate}
use ai_repo.Solver.Parts.{
  BuildPreferences, CandidateBuild, Parts, part, with_part, same_kind, solver_order, cost,
  selection_of,
}
use ai_repo.Solver.Parts.Kinds.{part-with_part, same_kind→≡, same_kind_refl}
use ai_repo.Solver.Options.Transparent.{options-All}
use ai_repo.Solver.Search.{Problem}
use ai_repo.Solver.Search.Complete.{Completes, done, choose}
use ai_repo.Solver.Score.{evaluate, scored}

solver_order-In : (kind : ComponentKind) → In kind solver_order
solver_order-In ComponentKind.cpu = inl refl
solver_order-In ComponentKind.motherboard = inr (inl refl)
solver_order-In ComponentKind.ram = inr (inr (inl refl))
solver_order-In ComponentKind.gpu = inr (inr (inr (inl refl)))
solver_order-In ComponentKind.storage = inr (inr (inr (inr (inl refl))))
solver_order-In ComponentKind.cooler = inr (inr (inr (inr (inr (inl refl)))))
solver_order-In ComponentKind.case = inr (inr (inr (inr (inr (inr (inl refl))))))
solver_order-In ComponentKind.psu = inr (inr (inr (inr (inr (inr (inr (inl refl)))))))

module _ {F : Type 0} ⦃py : Builtins F⦄ (problem : Problem F) where
  -- The build holds a part of the catalogue for this kind.
  abbrev pub Holds : Parts F → ComponentKind → Type 0
  Holds parts kind =
      (n : ComponentNode F) × (part kind parts ≡ some n) × In n (problem.catalog kind)

  In-All :
      (kind : ComponentKind) (nodes : List (ComponentNode F))
      → ((n : ComponentNode F) → In n nodes → In n (problem.catalog kind))
      → All (λ n. In n (problem.catalog kind)) nodes
  In-All kind [] h = tt
  In-All kind (n ∷ nodes) h = (h n (inl refl), In-All kind nodes (λ m k. h m (inr k)))

  with_part-Holds :
      (kind other : ComponentKind) (node : ComponentNode F) (partial : Parts F)
      → In node (problem.catalog kind)
      → (same_kind kind other ≡ true) ⊎ Holds partial other
      → Holds (with_part kind node partial) other
  with_part-Holds kind other node partial m h = elim (Bool-cases (same_kind kind other)) [
    | inl e ↦ (
      node,
      part-with_part kind other node partial ∙ rw e refl,
      rw (← same_kind→≡ kind other e) m,
    )
    | inr e ↦ elim h [
      | inl k ↦ cc
      | inr (n, found, k) ↦ (n, part-with_part kind other node partial ∙ rw e found, k)
    ]
  ]

  Completes-Holds :
      {order : List ComponentKind} {depth : ℕ} {partial complete : Parts F}
      → Completes problem order depth partial complete
      → (kind : ComponentKind) → In kind order ⊎ Holds partial kind
      → Holds complete kind
  Completes-Holds done kind (inl m) = absurd m
  Completes-Holds done kind (inr h) = h
  Completes-Holds {order = first ∷ order} {depth} {partial} (choose node m e d) kind h =
      let from_catalog =
        All-In node (λ n. In n (problem.catalog first)) _
          (options-All problem.repository problem.preferences problem.catalog
            (λ n. In n (problem.catalog first)) first partial
            (In-All first (problem.catalog first) (λ n k. k)))
          m in
      let held = with_part-Holds first kind node partial from_catalog in
      Completes-Holds d kind (elim h [
        | inl k ↦ elim k [ inl q ↦ inr (held (inl (rw q (same_kind_refl first)))) | inr l ↦ inl l ]
        | inr old ↦ inr (held (inr old))
      ])

  -- Every complete build of the search holds a part of the catalogue for each of the eight kinds.
  pub complete-Holds :
      {complete : Parts F}
      → Completes problem solver_order 0 [] complete
      → (kind : ComponentKind) → Holds complete kind
  complete-Holds d kind = Completes-Holds d kind (inl (solver_order-In kind))

  -- `_evaluate` returns for every complete build of the search; its candidate counts no failures,
  -- costs what its parts cost and selects them, whatever the compatibility engine says.
  pub complete-evaluates :
      (np : Numpy F) (preferences : BuildPreferences F) (budget : F) {complete : Parts F}
      → Completes problem solver_order 0 [] complete
      → (c : CandidateBuild F) × (evaluate np preferences budget complete ≡ some c)
        × (c.compatibility_failures ≡ 0)
        × (c.total_cost ≡ cost complete)
        × (c.selection ≡ selection_of complete)
  unfolding evaluate scored
  complete-evaluates np preferences budget {complete} d =
      let (cpu, found_cpu, _) = complete-Holds d ComponentKind.cpu in
      let (gpu, found_gpu, _) = complete-Holds d ComponentKind.gpu in
      let c = scored complete preferences budget (
        calculate np cpu gpu (part ComponentKind.ram complete) preferences
          preferences.display_refresh_hz) in
      (c, rw (found_cpu, evaluate, found_gpu) refl, refl, refl, refl)

-- ===== src/Solver/Generate/Offers.antt =====
-- What an answer of `generate` of backend/app/services/build_solver.py promises.
use mathlib.Core.Path.{subst}
use mathlib.Core.Option.{some-injective}
use ai_repo.Prelude.{
  String, ◌≡◌, refl, sym, ap, ◌∙◌, some, true, List, [], ◌∷◌, Bool-cases, inl, inr, In,
  bind-eq-some, map,
}
use ai_repo.Runtime.{Builtins}
use ai_repo.Domain.{ComponentKind}
use ai_repo.Repository.{Repository}
use ai_repo.Compatibility.{check}
use ai_repo.Performance.{Numpy}
use ai_repo.Solver.Parts.{BuildPreferences, CandidateBuild, part}
use ai_repo.Solver.Select.{Verdicts, full_request, verdict, graph_valid, first_graph_valid}
use ai_repo.Solver.Select.Memo.{
  AreFaithful, is_accepted, verdict-AreFaithful, graph_valid-AreFaithful,
}
use ai_repo.Solver.Generate.{
  GeneratedBuild, generated_part, is_nearer, insert_nearer, sorted_nearest, to_generated_build,
  to_generated_builds,
}

module _ {F : Type 0} ⦃py : Builtins F⦄ where
  In-insert_nearer :
      (a c : CandidateBuild F) (ds : List (CandidateBuild F))
      → In a (insert_nearer c ds)
      → In a (c ∷ ds)
  unfolding insert_nearer
  In-insert_nearer a c [] m = m
  In-insert_nearer a c (d ∷ ds) m = elim (Bool-cases (is_nearer d c)) [
    | inl e ↦
        let m' : In a (d ∷ insert_nearer c ds) = rw e at m in
        elim m' [
          | inl q ↦ inr (inl q)
          | inr k ↦ elim (In-insert_nearer a c ds k) [ inl q ↦ inl q | inr l ↦ inr (inr l) ]
        ]
    | inr e ↦ rw e at m
  ]

  pub In-sorted_nearest :
      (a : CandidateBuild F) (cs : List (CandidateBuild F)) → In a (sorted_nearest cs) → In a cs
  unfolding sorted_nearest
  In-sorted_nearest a [] m = m
  In-sorted_nearest a (c ∷ cs) m = elim (In-insert_nearer a c (sorted_nearest cs) m) [
    | inl q ↦ inl q
    | inr k ↦ inr (In-sorted_nearest a cs k)
  ]

module _ {F : Type 0} ⦃py : Builtins F⦄ (repository : Repository F) where
  -- The build is this candidate, written out with the engine's answer for it.
  pub record IsFor (c : CandidateBuild F) (build : GeneratedBuild F) : Type 0 where
    pub parts : build.parts ≡ map generated_part c.parts
    pub selection : build.selection ≡ c.selection
    pub score : build.score ≡ py.round c.score 3
    pub cost : build.total_cost_usd ≡ py.round c.total_cost 2
    pub checked : check repository (full_request c.selection) ≡ some build.compatibility

  pub first_graph_valid-In :
      (pool : List (CandidateBuild F)) (verdicts : Verdicts F) {c : CandidateBuild F}
      {verdicts' : Verdicts F}
      → AreFaithful repository verdicts
      → first_graph_valid repository pool verdicts ≡ some (some c, verdicts')
      → In c pool × (is_accepted repository c ≡ true) × AreFaithful repository verdicts'
  unfolding first_graph_valid
  first_graph_valid-In [] verdicts h e = cc
  first_graph_valid-In (d ∷ pool) verdicts {c} {verdicts'} h e =
      let ((ok, v), g, e') = bind-eq-some (graph_valid repository d.selection verdicts) _ e in
      let (same, h') = graph_valid-AreFaithful repository d verdicts h g in
      elim (Bool-cases ok) [
        | inl t ↦
            let found = some-injective _ _ (rw t at e') in
            let is_c : d ≡ c = some-injective _ _ (ap (λ x. x.0) found) in
            let accepted : is_accepted repository d ≡ true = sym same ∙ t in
            (
              inl (sym is_c),
              subst (λ x. is_accepted repository x ≡ true) is_c accepted,
              subst (AreFaithful repository) (ap (λ x. x.1) found) h',
            )
        | inr t ↦
            let rest = first_graph_valid-In pool v h' (rw t at e') in (inr rest.0, rest.1, rest.2)
      ]

module _ {F : Type 0} ⦃py : Builtins F⦄ (np : Numpy F) (repository : Repository F)
    (preferences : BuildPreferences F) where
  pub to_generated_build-IsFor :
      (label : String) (c : CandidateBuild F) (verdicts : Verdicts F) {build : GeneratedBuild F}
      {verdicts' : Verdicts F}
      → AreFaithful repository verdicts
      → to_generated_build np repository preferences label c verdicts ≡ some (build, verdicts')
      → IsFor repository c build × AreFaithful repository verdicts'
  unfolding to_generated_build
  to_generated_build-IsFor label c verdicts h e =
      let ((r, v), k, e1) = bind-eq-some (verdict repository c.selection verdicts) _ e in
      let (cpu, _, e2) = bind-eq-some (part ComponentKind.cpu c.parts) _ e1 in
      let (gpu, _, e3) = bind-eq-some (part ComponentKind.gpu c.parts) _ e2 in
      let same = some-injective _ _ e3 in
      let (asked, faithful) = verdict-AreFaithful repository c.selection verdicts h k in
      (
        subst (IsFor repository c) (ap (λ x. x.0) same)
            (record { parts = refl; selection = refl; score = refl; cost = refl; checked = asked }),
        subst (AreFaithful repository) (ap (λ x. x.1) same) faithful,
      )

  pub to_generated_builds-IsFor :
      (selected : List (String × CandidateBuild F)) (verdicts : Verdicts F)
      {builds : List (GeneratedBuild F)}
      → AreFaithful repository verdicts
      → to_generated_builds np repository preferences selected verdicts ≡ some builds
      → (b : GeneratedBuild F) → In b builds
      → (p : String × CandidateBuild F) × In p selected × IsFor repository p.1 b
  unfolding to_generated_builds
  to_generated_builds-IsFor [] verdicts h e b m = absurd (rw (← some-injective _ _ e) at m)
  to_generated_builds-IsFor ((label, c) ∷ selected) verdicts h e b m =
      let ((build, v), k, e1) =
        bind-eq-some (to_generated_build np repository preferences label c verdicts) _ e in
      let (builds, l, e2) =
        bind-eq-some (to_generated_builds np repository preferences selected v) _ e1 in
      let (is_for, h') = to_generated_build-IsFor label c verdicts h k in
      let m' : In b (build ∷ builds) = subst (In b) (sym (some-injective _ _ e2)) m in
      elim m' [
        | inl q ↦ ((label, c), inl refl, rw q is_for)
        | inr n ↦ let (p, i, f) = to_generated_builds-IsFor selected v h' l b n in (p, inr i, f)
      ]

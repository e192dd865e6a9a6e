-- ===== src/Solver/Generate/Honest.antt =====
-- The answers of `generate` of backend/app/services/build_solver.py are honest about what they show.
use mathlib.Core.Path.{subst}
use mathlib.Core.Option.{some-injective}
use ai_repo.Prelude.{
  ◌≡◌, ◌≢◌, ◌⊎◌, refl, sym, ap, ◌∙◌, none, some, true, false, ◌↔◌, List, [], ◌∷◌, arith, eqb,
  Bool-cases, Option-cases, inl, inr, In, All-In, if◌then◌else◌, is_empty, bind-eq-some,
}
use ai_repo.Runtime.{Builtins}
use ai_repo.Repository.{Repository}
use ai_repo.Compatibility.{CompatibilityResponse}
use ai_repo.Performance.{Numpy}
use ai_repo.Solver.Parts.{BuildPreferences, CandidateBuild, Parts, solver_order}
use ai_repo.Solver.Search.{Problem, SearchState, is_good}
use ai_repo.Solver.Search.Complete.{start, found}
use ai_repo.Solver.Search.Tidy.{IsTidy, search-IsTidy}
use ai_repo.Solver.Select.{choose_builds, first_graph_valid}
use ai_repo.Solver.Select.Memo.{nil-AreFaithful, is_accepted, select-picks}
use ai_repo.Solver.Select.Best.{select-AreDistinct, accepted-valid}
use ai_repo.Solver.Generate.{
  BuildGenerateRequest, BuildGenerateResponse, GeneratedBuild, OfferStatus, sorted_nearest,
  to_generated_build, select_multi_solution, offer_valid, offer_closest, offer, problem_of,
  normalized_preferences, generate, response_of,
}
use ai_repo.Solver.Generate.Offers.{
  IsFor, to_generated_build-IsFor, to_generated_builds-IsFor, first_graph_valid-In,
  In-sorted_nearest,
}

module _ {F : Type 0} ⦃py : Builtins F⦄ (problem : Problem F) (state : SearchState F) where
  -- Where a candidate stands in what the search has found, by the status of the answer that shows it.
  abbrev pub CameFrom : OfferStatus → CandidateBuild F → Type 0
  CameFrom OfferStatus.valid c =
      In c state.valid × (c.compatibility_failures ≡ 0) × (py.le c.total_cost problem.budget ≡ true)
  CameFrom OfferStatus.closest_valid c =
      (state.valid ≡ [])
      × In c state.closest
      × ((c.compatibility_failures ≢ 0) ⊎ (py.le c.total_cost problem.budget ≡ false))
  CameFrom OfferStatus.no_solution c = ⊥

  -- The answer shows only builds that the engine was asked about and accepts; each is one that the
  -- search has found, where the status of the answer says; and the answer claims no solution exactly
  -- when it shows none.
  pub record IsHonest (response : BuildGenerateResponse F) : Type 0 where
    pub shown :
        (b : GeneratedBuild F)
        → In b response.builds
        → (c : CandidateBuild F) × CameFrom response.compatibility_status c
          × IsFor problem.repository c b
          × (b.compatibility.valid ≡ true)
    pub none_shown :
        (response.compatibility_status ≡ OfferStatus.no_solution) ↔ (response.builds ≡ [])

nil_of_empty : {A : Type 0} (xs : List A) → is_empty xs ≡ true → xs ≡ []
nil_of_empty [] e = refl
nil_of_empty (x ∷ xs) e = cc

module _ {F : Type 0} ⦃py : Builtins F⦄ (problem : Problem F) where
  good-affordable :
      (c : CandidateBuild F)
      → is_good problem c ≡ true
      → (c.compatibility_failures ≡ 0) × (py.le c.total_cost problem.budget ≡ true)
  unfolding is_good
  good-affordable c h = ground arith

  rejected-misses :
      (c : CandidateBuild F)
      → is_good problem c ≡ false
      → (c.compatibility_failures ≢ 0) ⊎ (py.le c.total_cost problem.budget ≡ false)
  unfolding is_good
  rejected-misses c h = elim (Bool-cases (eqb c.compatibility_failures 0)) [
    | inl e ↦ inr (ground arith)
    | inr e ↦ inl (ground arith)
  ]

  accepted-checked :
      (c : CandidateBuild F) (b : GeneratedBuild F)
      → is_accepted problem.repository c ≡ true
      → IsFor problem.repository c b
      → b.compatibility.valid ≡ true
  accepted-checked c b a f =
      let (r, asked, good) = accepted-valid problem.repository c a in
      let same = some-injective _ _ (sym asked ∙ f.checked) in
      ap (λ (x : CompatibilityResponse F). x.valid) (sym same) ∙ good

  module _ (state : SearchState F) where
    answer-IsHonest :
        (builds : List (GeneratedBuild F))
        → ((b : GeneratedBuild F)
            → In b builds
            → (c : CandidateBuild F) × CameFrom problem state OfferStatus.valid c
              × IsFor problem.repository c b
              × (b.compatibility.valid ≡ true))
        → IsHonest problem state (
            if is_empty builds
            then response_of state [] OfferStatus.no_solution (
                some
                  "Local pruning found candidates, but the final graph engine rejected each sampled build.")
            else response_of state builds OfferStatus.valid none)
    answer-IsHonest [] h = record { shown = λ b m. absurd m; none_shown = (λ _. refl, λ _. refl) }
    answer-IsHonest (b ∷ builds) h = record { shown = h; none_shown = (λ k. cc, λ k. cc) }

  module _ (np : Numpy F) (preferences : BuildPreferences F) (state : SearchState F)
      (tidy : IsTidy problem state) where
    select-shown :
        {builds : List (GeneratedBuild F)}
        → select_multi_solution np problem.repository preferences state.valid [] ≡ some builds
        → (b : GeneratedBuild F) → In b builds
        → (c : CandidateBuild F) × CameFrom problem state OfferStatus.valid c
          × IsFor problem.repository c b
          × (b.compatibility.valid ≡ true)
    unfolding select_multi_solution
    select-shown e b m =
        let repository = problem.repository in
        let (chosen, s, e1) = bind-eq-some (choose_builds repository state.valid []) _ e in
        let (_, faithful) = select-picks repository state.valid [] (nil-AreFaithful repository) s in
        let (_, sound) =
          select-AreDistinct repository state.valid [] (nil-AreFaithful repository) s in
        let (p, i, f) =
          to_generated_builds-IsFor np repository preferences chosen.selected chosen.verdicts
            faithful e1 b m in
        let (k, r, asked, good) = sound p i in
        let same = some-injective _ _ (sym asked ∙ f.checked) in
        let (whole, cheap) =
          good-affordable p.1
            (All-In p.1 (λ c. is_good problem c ≡ true) state.valid tidy.good k) in
        (p.1, (k, whole, cheap), f, ap (λ (x : CompatibilityResponse F). x.valid) (sym same) ∙ good)

    offer_valid-IsHonest :
        {response : BuildGenerateResponse F}
        → offer_valid np problem.repository preferences state ≡ some response
        → IsHonest problem state response
    unfolding offer_valid
    offer_valid-IsHonest e =
        let (builds, t, e2) =
          bind-eq-some (select_multi_solution np problem.repository preferences state.valid []) _
            e in
        subst (IsHonest problem state) (some-injective _ _ e2)
          (answer-IsHonest state builds (select-shown t))

    offer_closest-IsHonest :
        {response : BuildGenerateResponse F}
        → state.valid ≡ []
        → offer_closest np problem.repository preferences state ≡ some response
        → IsHonest problem state response
    unfolding offer_closest
    offer_closest-IsHonest none_valid e =
        let repository = problem.repository in
        let ((found, v), s, e1) =
          bind-eq-some (first_graph_valid repository (sorted_nearest state.closest) []) _ e in
        elim (Option-cases found) [
          | inl n ↦
              subst (IsHonest problem state) (some-injective _ _ (rw n at e1))
                (record { shown = λ b m. absurd m; none_shown = (λ _. refl, λ _. refl) })
          | inr (c, n) ↦
              let ((build, w), t, e2) =
                bind-eq-some (to_generated_build np repository preferences "closest_valid" c v) _
                  (rw n at e1) in
              let (k, accepted, faithful) =
                first_graph_valid-In repository (sorted_nearest state.closest) []
                  (nil-AreFaithful repository) (s ∙ ap (λ o. some (o, v)) n) in
              let (f, _) =
                to_generated_build-IsFor np repository preferences "closest_valid" c v faithful t in
              let near = In-sorted_nearest c state.closest k in
              let misses =
                rejected-misses c
                  (All-In c (λ d. is_good problem d ≡ false) state.closest tidy.rejected near) in
              subst (IsHonest problem state) (some-injective _ _ e2) (record {
                shown = λ b m. elim m [
                  | inl q ↦ (
                    c,
                    (none_valid, near, misses),
                    rw q f,
                    rw q (accepted-checked c build accepted f),
                  )
                  | inr l ↦ absurd l
                ];
                none_shown = (λ h. cc, λ h. cc);
              })
        ]

    offer-IsHonest :
        {response : BuildGenerateResponse F}
        → offer np problem.repository preferences state ≡ some response
        → IsHonest problem state response
    unfolding offer
    offer-IsHonest e = elim (Bool-cases (is_empty state.valid)) [
      | inl n ↦ offer_closest-IsHonest (nil_of_empty state.valid n) (rw n at e)
      | inr n ↦ offer_valid-IsHonest (rw n at e)
    ]

start-IsTidy : {F : Type 0} ⦃py : Builtins F⦄ (problem : Problem F) → IsTidy problem start
start-IsTidy problem = record {
  good = tt;
  rejected = tt;
  capped = omega arith;
  counted = omega arith;
}

module _ {F : Type 0} ⦃py : Builtins F⦄ (np : Numpy F) (repository : Repository F)
    (evaluated : BuildPreferences F → Parts F → CandidateBuild F) where
  -- Where `generate` returns, its preferences were understood, and the answer is honest: each build
  -- shown was checked by the engine with QVL required and is valid, and it is a candidate that this
  -- search has found, with its parts, its cost and its score; with status "valid" one from the search's
  -- list of valid builds, with no failure and a cost within the budget; with status "closest_valid" the
  -- search has found no valid build, and it is one from the list of closest builds, with a failure or a
  -- cost that is not within the budget; and the status is "no_solution" exactly when nothing is shown.
  pub generate-IsHonest :
      (request : BuildGenerateRequest F) {response : BuildGenerateResponse F}
      → generate np repository evaluated request ≡ some response
      → (preferences : BuildPreferences F) × (normalized_preferences request ≡ some preferences)
        × (let problem = problem_of np repository evaluated request preferences in
            IsHonest problem (found problem solver_order) response)
  unfolding generate
  generate-IsHonest request e =
      let (preferences, n, e1) = bind-eq-some (normalized_preferences request) _ e in
      let problem = problem_of np repository evaluated request preferences in
      let tidy = search-IsTidy problem solver_order 0 [] start (start-IsTidy problem) in
      (preferences, n, offer-IsHonest problem np preferences (found problem solver_order) tidy e1)

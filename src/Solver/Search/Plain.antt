-- ===== src/Solver/Search/Plain.antt =====
-- `_search` of backend/app/services/build_solver.py against an enumeration that prunes nothing: every
-- sequence of choices, and afterwards a test of each partial build on the way.
use ai_repo.Prelude.{
  ℕ, suc, ◌<◌, ◌≡◌, refl, ap, ◌∙◌, Bool, true, false, not, ◌&&◌, List, [], ◌∷◌, ◌++◌, map, filter,
  take, length, eqb, Bool-cases, inl, inr,
}
use ai_repo.Runtime.{Builtins}
use ai_repo.Domain.{ComponentKind, ComponentNode}
use ai_repo.Solver.Parts.{CandidateBuild, Parts, with_part, cost, max_valid_solver_builds}
use ai_repo.Solver.Feasible.{partial_is_possible}
use ai_repo.Solver.Options.Transparent.{options}
use ai_repo.Solver.Search.{Problem, goes_on, floor_at, is_good}
use ai_repo.Solver.Search.Leaves.{leaves, branches}
use ai_repo.Solver.Search.Exhaustive.{HasFitCatalog}
use ai_repo.Solver.Search.Complete.{found, search-leaves}

module _ {A : Type 0} where
  map-append : {B : Type 0} (f : A → B) (xs ys : List A) → map f (xs ++ ys) ≡ map f xs ++ map f ys
  map-append f [] ys = refl
  map-append f (x ∷ xs) ys = rw (map-append f xs ys) refl

  filter-append : (p : A → Bool) (xs ys : List A) → filter p (xs ++ ys) ≡ filter p xs ++ filter p ys
  filter-append p [] ys = refl
  filter-append p (x ∷ xs) ys = elim (Bool-cases (p x)) [
    | inl e ↦ rw (e, filter-append p xs ys) refl
    | inr e ↦ rw (e, filter-append p xs ys) refl
  ]

-- The partial builds that follow on a first one, in turn.
abbrev pub Steps : Type 0 → Type 0
Steps F = List (Parts F)

-- The build that they end in.
unfoldable pub end_of : {F : Type 0} → Parts F → Steps F → Parts F
end_of partial [] = partial
end_of partial (next ∷ steps) = end_of next steps

module _ {F : Type 0} ⦃py : Builtins F⦄ (problem : Problem F) where
  unfoldable pub each_choice :
      (Parts F → List (Steps F)) → ComponentKind → Parts F → List (ComponentNode F) → List (Steps F)
  each_choice deeper kind partial [] = []
  each_choice deeper kind partial (node ∷ nodes) =
      let next = with_part kind node partial in
      map (λ steps. next ∷ steps) (deeper next) ++ each_choice deeper kind partial nodes

  -- Every choice of an option for each kind in turn.
  unfoldable pub every_choice : List ComponentKind → Parts F → List (Steps F)
  unfolding each_choice
  every_choice [] partial = [] ∷ []
  every_choice (kind ∷ order) partial =
      each_choice (every_choice order) kind partial
        (options problem.repository problem.preferences problem.catalog kind partial)

  -- No partial build on the way is impossible, and none costs, with the floor of what is left to
  -- choose, more than 1.45 times the budget.
  unfoldable pub stays_possible : ℕ → Steps F → Bool
  stays_possible depth [] = true
  stays_possible depth (next ∷ steps) =
      (partial_is_possible next problem.preferences
        && not (
            py.lt (py.mul problem.budget (py.literal 145 2))
              (py.add (cost next) (floor_at problem.floors (suc depth)))))
      && stays_possible (suc depth) steps

  -- The complete builds of these choices, from the empty build.
  abbrev pub possible_builds : List ComponentKind → List (Parts F)
  possible_builds order = map (end_of []) (filter (stays_possible 0) (every_choice order []))

  abbrev surviving : ℕ → Parts F → List (Steps F) → List (Parts F)
  surviving depth partial choices = map (end_of partial) (filter (stays_possible depth) choices)

  stays_possible-cons :
      (depth : ℕ) (next : Parts F) (steps : Steps F)
      → stays_possible depth (next ∷ steps)
        ≡ (goes_on problem depth next && stays_possible (suc depth) steps)
  unfolding goes_on stays_possible
  stays_possible-cons depth next steps = refl

  step-kept :
      (depth : ℕ) (partial next : Parts F) (choices : List (Steps F))
      → goes_on problem depth next ≡ true
      → surviving depth partial (map (λ steps. next ∷ steps) choices)
        ≡ surviving (suc depth) next choices
  unfolding end_of
  step-kept depth partial next [] e = refl
  step-kept depth partial next (steps ∷ choices) e =
      let rest = step-kept depth partial next choices e in
      elim (Bool-cases (stays_possible (suc depth) steps)) [
        | inl k ↦ rw (stays_possible-cons, e, k, rest) refl
        | inr k ↦ rw (stays_possible-cons, e, k, rest) refl
      ]

  step-dropped :
      (depth : ℕ) (partial next : Parts F) (choices : List (Steps F))
      → goes_on problem depth next ≡ false
      → surviving depth partial (map (λ steps. next ∷ steps) choices) ≡ []
  step-dropped depth partial next [] e = refl
  step-dropped depth partial next (steps ∷ choices) e =
      rw (stays_possible-cons, e) (step-dropped depth partial next choices e)

  branches-surviving :
      (deeper : Parts F → List (Parts F)) (choices : Parts F → List (Steps F))
      (kind : ComponentKind) (depth : ℕ) (partial : Parts F) (nodes : List (ComponentNode F))
      → ((next : Parts F) → deeper next ≡ surviving (suc depth) next (choices next))
      → branches problem deeper kind depth partial nodes
        ≡ surviving depth partial (each_choice choices kind partial nodes)
  unfolding branches each_choice
  branches-surviving deeper choices kind depth partial [] h = refl
  branches-surviving deeper choices kind depth partial (node ∷ nodes) h =
      let next = with_part kind node partial in
      let here = map (λ steps. next ∷ steps) (choices next) in
      let rest = branches-surviving deeper choices kind depth partial nodes h in
      let split : surviving depth partial (here ++ each_choice choices kind partial nodes)
          ≡ surviving depth partial here
            ++ surviving depth partial (each_choice choices kind partial nodes) =
        ap (map (end_of partial)) (filter-append (stays_possible depth) here _)
        ∙ map-append (end_of partial) (filter (stays_possible depth) here) _ in
      elim (Bool-cases (goes_on problem depth next)) [
        | inl e ↦ rw (e, split, step-kept depth partial next (choices next) e, h next, rest) refl
        | inr e ↦ rw (e, split, step-dropped depth partial next (choices next) e, rest) refl
      ]

  leaves-surviving :
      (order : List ComponentKind) (depth : ℕ) (partial : Parts F)
      → leaves problem order depth partial ≡ surviving depth partial (every_choice order partial)
  unfolding leaves every_choice stays_possible end_of
  leaves-surviving [] depth partial = refl
  leaves-surviving (kind ∷ order) depth partial =
      branches-surviving (leaves problem order (suc depth)) (every_choice order) kind depth partial
        _ (λ next. leaves-surviving order (suc depth) next)

  -- What the search accepts in the end.
  abbrev pub is_affordable : CandidateBuild F → Bool
  is_affordable c = eqb c.compatibility_failures 0 && py.le c.total_cost problem.budget

  -- With ids that the option cache can work with: take every sequence of choices, and keep those on
  -- which no partial build is impossible or, with the floor of the rest, dearer than 1.45 times the
  -- budget. The search finds valid the first 120 of their evaluations that have no failure and cost
  -- no more than the budget, in order; and while there are fewer, all the others are the closest.
  pub search-results :
      (order : List ComponentKind)
      → HasFitCatalog problem
      → let evaluations = map problem.evaluate (possible_builds order) in
        let accepted = filter is_affordable evaluations in
        ((found problem order).valid ≡ take max_valid_solver_builds accepted)
        × (length accepted < max_valid_solver_builds
            → (found problem order).closest ≡ filter (λ c. not (is_affordable c)) evaluations)
  unfolding is_good
  search-results order fit = rw (← leaves-surviving order 0 []) (search-leaves problem order fit)

-- ===== src/Solver/Search/Complete.antt =====
-- The complete builds of `_search` of backend/app/services/build_solver.py, as a relation, and the
-- lists that the solver starts from nothing and fills.
use mathlib.Core.Path.{subst}
use ai_repo.Prelude.{
  ℕ, suc, ◌<◌, ◌≡◌, refl, sym, ap, ◌∙◌, true, not, List, [], ◌∷◌, arith, map, filter, take, length,
  if◌then◌else◌, Bool-cases, inl, inr, In, In-append_cases, In-append_left, In-append_right,
  In-filter, In-filter_intro, In-map, In-map_intro, In-take, take_short,
}
use ai_repo.Runtime.{Builtins}
use ai_repo.Domain.{ComponentKind, ComponentNode}
use ai_repo.Solver.Parts.{CandidateBuild, Parts, part, with_part, max_valid_solver_builds}
use ai_repo.Solver.Options.Consistent.{nil-IsConsistent}
use ai_repo.Solver.Options.Transparent.{HasPlainIds, options}
use ai_repo.Solver.Search.{Problem, SearchState, goes_on, search, is_good}
use ai_repo.Solver.Search.Leaves.{leaves, branches, feed-valid, feed-closest, good_ones}
use ai_repo.Solver.Search.Exhaustive.{HasFitCatalog, search-Fed}

-- What `generate` hands to the first call of `_search`.
abbrev pub start : {F : Type 0} → SearchState F
start = record {
  valid = [];
  closest = [];
  explored = 0;
  pruned = 0;
  max_depth_reached = 0;
  cache = [];
}

module _ {F : Type 0} ⦃py : Builtins F⦄ (problem : Problem F) where
  -- A choice for each kind in turn, among its options and none of them pruned, leads from the
  -- partial build to the complete one.
  pub data Completes : List ComponentKind → ℕ → Parts F → Parts F → Type 0 where
    done : {depth : ℕ} {partial : Parts F} → Completes [] depth partial partial
    choose :
        {kind : ComponentKind} {order : List ComponentKind} {depth : ℕ} {partial complete : Parts F}
        (node : ComponentNode F)
        → In node (options problem.repository problem.preferences problem.catalog kind partial)
        → goes_on problem depth (with_part kind node partial) ≡ true
        → Completes order (suc depth) (with_part kind node partial) complete
        → Completes (kind ∷ order) depth partial complete

  branches-In :
      (deeper : Parts F → List (Parts F)) (kind : ComponentKind) (depth : ℕ)
      (partial complete : Parts F) (nodes : List (ComponentNode F))
      → In complete (branches problem deeper kind depth partial nodes)
      → (node : ComponentNode F) × In node nodes
        × (goes_on problem depth (with_part kind node partial) ≡ true)
        × In complete (deeper (with_part kind node partial))
  unfolding branches
  branches-In deeper kind depth partial complete [] m = absurd m
  branches-In deeper kind depth partial complete (node ∷ nodes) m =
      elim (In-append_cases complete
        (if goes_on problem depth (with_part kind node partial)
          then deeper (with_part kind node partial)
          else [])
        (branches problem deeper kind depth partial nodes) m) [
          | inl here ↦ elim (Bool-cases (goes_on problem depth (with_part kind node partial))) [
            | inl e ↦ (node, inl refl, e, (rw e at here))
            | inr e ↦ absurd (rw e at here)
          ]
          | inr there ↦
              let (n, k, e, d) = branches-In deeper kind depth partial complete nodes there in
              (n, inr k, e, d)
        ]

  branches-In_intro :
      (deeper : Parts F → List (Parts F)) (kind : ComponentKind) (depth : ℕ)
      (partial complete : Parts F) (nodes : List (ComponentNode F)) (node : ComponentNode F)
      → In node nodes
      → goes_on problem depth (with_part kind node partial) ≡ true
      → In complete (deeper (with_part kind node partial))
      → In complete (branches problem deeper kind depth partial nodes)
  unfolding branches
  branches-In_intro deeper kind depth partial complete [] node m e d = absurd m
  branches-In_intro deeper kind depth partial complete (n ∷ nodes) node (inl here) e d =
      In-append_left complete
        (if goes_on problem depth (with_part kind n partial)
          then deeper (with_part kind n partial)
          else [])
        (branches problem deeper kind depth partial nodes) (rw (sym here, e) d)
  branches-In_intro deeper kind depth partial complete (n ∷ nodes) node (inr there) e d =
      In-append_right complete
        (if goes_on problem depth (with_part kind n partial)
          then deeper (with_part kind n partial)
          else [])
        (branches problem deeper kind depth partial nodes)
        (branches-In_intro deeper kind depth partial complete nodes node there e d)

  pub leaves-Completes :
      (order : List ComponentKind) (depth : ℕ) (partial complete : Parts F)
      → In complete (leaves problem order depth partial)
      → Completes order depth partial complete
  unfolding leaves
  leaves-Completes [] depth partial complete (inl e) = rw e done
  leaves-Completes [] depth partial complete (inr m) = absurd m
  leaves-Completes (kind ∷ order) depth partial complete m =
      let (node, k, e, d) =
        branches-In (leaves problem order (suc depth)) kind depth partial complete _ m in
      choose node k e (leaves-Completes order (suc depth) (with_part kind node partial) complete d)

  Completes-leaves :
      {order : List ComponentKind} {depth : ℕ} {partial complete : Parts F}
      → Completes order depth partial complete
      → In complete (leaves problem order depth partial)
  unfolding leaves
  Completes-leaves done = inl refl
  Completes-leaves {order = kind ∷ order} {depth} {partial} {complete} (choose node k e d) =
      branches-In_intro (leaves problem order (suc depth)) kind depth partial complete
        (options problem.repository problem.preferences problem.catalog kind partial) node k e
        (Completes-leaves d)

  empty-HasPlainIds : HasPlainIds {F = F} []
  unfolding part
  empty-HasPlainIds kind = tt

  module _ (order : List ComponentKind) where
    -- The lists after the first call of `_search`.
    abbrev pub found : SearchState F
    found = search problem order 0 [] start

    -- The lists are what the leaves of the pruned search give.
    pub search-leaves :
        HasFitCatalog problem
        → let complete = leaves problem order 0 [] in
          (found.valid ≡ take max_valid_solver_builds (good_ones problem complete))
          × (length (good_ones problem complete) < max_valid_solver_builds
              → found.closest
                ≡ filter (λ c. not (is_good problem c)) (map problem.evaluate complete))
    search-leaves fit =
        let complete = leaves problem order 0 [] in
        let fed =
          search-Fed problem fit order 0 [] start empty-HasPlainIds (nil-IsConsistent _ _ _) in
        (
          ap (λ r. r.0) fed.outcome ∙ feed-valid problem complete [] [],
          λ few.
              ap (λ r. r.1) fed.outcome ∙ feed-closest problem complete [] [] (omega (arith, few)),
        )

    -- A build found valid is a complete build that passes the last test; and when the cap is not
    -- reached, every complete build that passes is found.
    pub search-valid_iff :
        HasFitCatalog problem
        → (c : CandidateBuild F)
        → (In c found.valid
            → (b : Parts F) × Completes order 0 [] b
              × (c ≡ problem.evaluate b)
              × (is_good problem c ≡ true))
          × (length found.valid < max_valid_solver_builds
              → (b : Parts F) → Completes order 0 [] b
              → is_good problem (problem.evaluate b) ≡ true
              → In (problem.evaluate b) found.valid)
    search-valid_iff fit c =
        let (same, _) = search-leaves fit in
        let complete = leaves problem order 0 [] in
        let good = good_ones problem complete in
        (
          λ m.
              let (k, passes) =
                In-filter c (is_good problem) (map problem.evaluate complete)
                  (In-take c 120 good (subst (In c) same m)) in
              let (b, l, e) = In-map problem.evaluate c complete k in
              (b, leaves-Completes order 0 [] b l, e, passes),
          λ few b d passes.
              let short : length (take max_valid_solver_builds good) < max_valid_solver_builds =
                rw same at few in
              rw (same, take_short max_valid_solver_builds good short)
                (In-filter_intro (problem.evaluate b) (is_good problem)
                  (map problem.evaluate complete)
                  (In-map_intro problem.evaluate b complete (Completes-leaves d)) passes),
        )

-- ===== src/Solver/Search/Tidy.antt =====
-- What the lists and counters of `_search` of backend/app/services/build_solver.py keep, whatever the
-- catalogue and the cache.
use ai_repo.Prelude.{
  ℕ, suc, ◌+◌, ◌≤◌, ◌≡◌, true, false, List, [], ◌∷◌, arith, All, All-append, length, length-append,
  Bool-cases, inl, inr,
}
use ai_repo.Runtime.{Builtins}
use ai_repo.Domain.{ComponentKind, ComponentNode}
use ai_repo.Solver.Parts.{Parts, with_part, max_valid_solver_builds}
use ai_repo.Solver.Options.{filtered_candidates}
use ai_repo.Solver.Search.{
  Problem, SearchState, is_full, is_good, goes_on, visit, search, record_build, note_depth,
  count_pruned,
}

module _ {F : Type 0} ⦃py : Builtins F⦄ (problem : Problem F) where
  pub record IsTidy (state : SearchState F) : Type 0 where
    pub good : All (λ c. is_good problem c ≡ true) state.valid
    pub rejected : All (λ c. is_good problem c ≡ false) state.closest
    pub capped : length state.valid ≤ max_valid_solver_builds
    pub counted : state.explored ≡ length state.valid + length state.closest

  abbrev Tidies : (Parts F → SearchState F → SearchState F) → Type 0
  Tidies step =
      (partial : Parts F) (state : SearchState F) → IsTidy state → IsTidy (step partial state)

  record_build-IsTidy :
      (depth : ℕ) (partial : Parts F) (state : SearchState F)
      → is_full state.valid ≡ false
      → IsTidy state
      → IsTidy (record_build problem partial (note_depth problem depth state))
  unfolding record_build is_full
  record_build-IsTidy depth partial state open_ h =
      let c = problem.evaluate partial in
      elim (Bool-cases (is_good problem c)) [
        | inl e ↦ rw e (record {
          good = All-append _ state.valid (c ∷ []) h.good (e, tt);
          rejected = h.rejected;
          capped = let room = length-append state.valid (c ∷ []) in ground arith;
          counted = omega (arith, length-append state.valid (c ∷ []), h.counted);
        })
        | inr e ↦ rw e (record {
          good = h.good;
          rejected = All-append _ state.closest (c ∷ []) h.rejected (e, tt);
          capped = h.capped;
          counted = omega (arith, length-append state.closest (c ∷ []), h.counted);
        })
      ]

  visit-IsTidy :
      (deeper : Parts F → SearchState F → SearchState F)
      → Tidies deeper
      → (kind : ComponentKind) (depth : ℕ) (partial : Parts F) (nodes : List (ComponentNode F))
        (state : SearchState F)
      → IsTidy state
      → IsTidy (visit problem deeper kind depth partial nodes state)
  unfolding visit
  visit-IsTidy deeper step kind depth partial [] state h = h
  visit-IsTidy deeper step kind depth partial (node ∷ nodes) state h =
      let next = with_part kind node partial in
      elim (Bool-cases (is_full state.valid)) [
        | inl full ↦ rw full h
        | inr open_ ↦ elim (Bool-cases (goes_on problem depth next)) [
          | inl e ↦
              rw (open_, e)
                (visit-IsTidy deeper step kind depth partial nodes (deeper next state)
                  (step next state h))
          | inr e ↦
              rw (open_, e)
                (visit-IsTidy deeper step kind depth partial nodes (count_pruned problem state)
                  (record {
                    good = h.good;
                    rejected = h.rejected;
                    capped = h.capped;
                    counted = h.counted;
                  }))
        ]
      ]

  -- The search keeps this: every valid build has no failure and costs at most the budget, every
  -- closest build misses one of the two, at most 120 are valid, and the explored configurations are
  -- the builds of both lists.
  pub search-IsTidy :
      (order : List ComponentKind) (depth : ℕ) (partial : Parts F) (state : SearchState F)
      → IsTidy state
      → IsTidy (search problem order depth partial state)
  unfolding search
  search-IsTidy [] depth partial state h = elim (Bool-cases (is_full state.valid)) [
    | inl full ↦ rw full h
    | inr open_ ↦ rw open_ (record_build-IsTidy depth partial state open_ h)
  ]
  search-IsTidy (kind ∷ order) depth partial state h = elim (Bool-cases (is_full state.valid)) [
    | inl full ↦ rw full h
    | inr open_ ↦
        let (candidates, cache) =
          filtered_candidates problem.repository problem.preferences problem.catalog kind partial
            state.cache in
        rw open_ (
          visit-IsTidy (search problem order (suc depth))
            (λ p s t. search-IsTidy order (suc depth) p s t) kind depth partial candidates
            (record (note_depth problem depth state) { cache = cache })
            (record {
              good = h.good;
              rejected = h.rejected;
              capped = h.capped;
              counted = h.counted;
            }))
  ]

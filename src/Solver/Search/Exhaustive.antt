-- ===== src/Solver/Search/Exhaustive.antt =====
-- The search of backend/app/services/build_solver.py against its leaves: pruning, cap and cache lose
-- nothing that the specification keeps.
use ai_repo.Prelude.{
  ℕ, suc, ◌≡◌, refl, sym, ap, ◌∙◌, false, List, [], ◌∷◌, Bool-cases, inl, inr, All,
}
use ai_repo.Runtime.{Builtins}
use ai_repo.Domain.{ComponentKind, ComponentNode}
use ai_repo.Solver.Parts.{Parts, with_part, same_kind}
use ai_repo.Solver.Parts.Kinds.{part-with_part}
use ai_repo.Solver.Options.{filtered_candidates}
use ai_repo.Solver.Options.Consistent.{IsPlain, HasUniqueIds, IsConsistent}
use ai_repo.Solver.Options.Transparent.{
  HasPlainIds, options, filtered_candidates_transparent, options-All,
}
use ai_repo.Solver.Search.{
  Problem, SearchState, is_full, is_good, goes_on, visit, search, record_build, note_depth,
  count_pruned,
}
use ai_repo.Solver.Search.Leaves.{leaves, branches, feed, feed_full, feed-append, sort_out, Results}

with_part-HasPlainIds :
    {F : Type 0} (kind : ComponentKind) (node : ComponentNode F) (partial : Parts F)
    → IsPlain node
    → HasPlainIds partial
    → HasPlainIds (with_part kind node partial)
with_part-HasPlainIds kind node partial h k other =
    rw part-with_part
      (elim (Bool-cases (same_kind kind other)) [ inl e ↦ rw e h | inr e ↦ rw e (k other) ])

module _ {F : Type 0} ⦃py : Builtins F⦄ (problem : Problem F) where
  -- The catalogue has ids that the cache can work with.
  pub record HasFitCatalog : Type 0 where
    pub unique : HasUniqueIds (problem.catalog ComponentKind.case)
    pub plain : (kind : ComponentKind) → All IsPlain (problem.catalog kind)

  abbrev pub results : SearchState F → Results F
  results state = (state.valid, state.closest)

  -- `after` is the state `before`, fed with the builds.
  pub record Fed (builds : List (Parts F)) (before after : SearchState F) : Type 0 where
    pub outcome : results after ≡ feed problem builds (results before)
    pub consistent : IsConsistent problem.repository problem.preferences problem.catalog after.cache

  -- The claim about the recursive call at the next depth.
  abbrev FeedsAll : (Parts F → List (Parts F)) → (Parts F → SearchState F → SearchState F) → Type 0
  FeedsAll deeper_leaves deeper =
      (partial : Parts F) (state : SearchState F)
      → HasPlainIds partial
      → IsConsistent problem.repository problem.preferences problem.catalog state.cache
      → Fed (deeper_leaves partial) state (deeper partial state)

  visit-Fed :
      (deeper_leaves : Parts F → List (Parts F)) (deeper : Parts F → SearchState F → SearchState F)
      → FeedsAll deeper_leaves deeper
      → (kind : ComponentKind) (depth : ℕ) (partial : Parts F) (nodes : List (ComponentNode F))
        (state : SearchState F)
      → HasPlainIds partial
      → All IsPlain nodes
      → IsConsistent problem.repository problem.preferences problem.catalog state.cache
      → Fed
          (branches problem deeper_leaves kind depth partial nodes)
          state
          (visit problem deeper kind depth partial nodes state)
  unfolding visit branches
  visit-Fed deeper_leaves deeper step kind depth partial [] state plain nodes_plain c = record {
    outcome = unfold feed in refl;
    consistent = c;
  }
  visit-Fed deeper_leaves deeper step kind depth partial (node ∷ nodes) state plain nodes_plain c =
      elim (Bool-cases (is_full state.valid)) [
        | inl full ↦
            rw full
              (record { outcome = sym (feed_full problem _ (results state) full); consistent = c })
        | inr open_ ↦
            let next = with_part kind node partial in
            let go =
              λ (state' : SearchState F)
                  (c' : IsConsistent problem.repository problem.preferences problem.catalog
                    state'.cache).
                visit-Fed deeper_leaves deeper step kind depth partial nodes state' plain
                  nodes_plain.1 c' in
            elim (Bool-cases (goes_on problem depth next)) [
              | inl e ↦
                  let first =
                    step next state (with_part-HasPlainIds kind node partial nodes_plain.0 plain)
                      c in
                  let then_ = go (deeper next state) first.consistent in
                  let rest = branches problem deeper_leaves kind depth partial nodes in
                  rw (open_, e)
                    (record {
                      outcome =
                          then_.outcome
                          ∙ ap (feed problem rest) first.outcome
                          ∙ sym (feed-append problem (deeper_leaves next) rest (results state));
                      consistent = then_.consistent;
                    })
              | inr e ↦
                  rw (open_, e)
                    (let then_ = go (count_pruned problem state) c in
                      record { outcome = then_.outcome; consistent = then_.consistent })
            ]
      ]

  record_build-Fed :
      (depth : ℕ) (partial : Parts F) (state : SearchState F)
      → is_full state.valid ≡ false
      → IsConsistent problem.repository problem.preferences problem.catalog state.cache
      → Fed (partial ∷ []) state (record_build problem partial (note_depth problem depth state))
  unfolding record_build feed sort_out
  record_build-Fed depth partial state open_ c =
      elim (Bool-cases (is_good problem (problem.evaluate partial))) [
        | inl good ↦ rw good (record { outcome = rw (open_, good) refl; consistent = c })
        | inr bad ↦ rw bad (record { outcome = rw (open_, bad) refl; consistent = c })
      ]

  module _ (fit : HasFitCatalog) where
    pub search-Fed :
        (order : List ComponentKind) (depth : ℕ) (partial : Parts F) (state : SearchState F)
        → HasPlainIds partial
        → IsConsistent problem.repository problem.preferences problem.catalog state.cache
        → Fed (leaves problem order depth partial) state (search problem order depth partial state)
    unfolding search leaves
    search-Fed [] depth partial state plain c = elim (Bool-cases (is_full state.valid)) [
      | inl full ↦
          rw full
            (record { outcome = sym (feed_full problem _ (results state) full); consistent = c })
      | inr open_ ↦ rw open_ (record_build-Fed depth partial state open_ c)
    ]
    search-Fed (kind ∷ order) depth partial state plain c =
        let (same, c') =
          filtered_candidates_transparent problem.repository problem.preferences problem.catalog
            kind partial state.cache fit.unique plain c in
        elim (Bool-cases (is_full state.valid)) [
          | inl full ↦
              rw full (record {
                outcome = sym (feed_full problem _ (results state) full);
                consistent = c;
              })
          | inr open_ ↦
              let then_ =
                visit-Fed (leaves problem order (suc depth)) (search problem order (suc depth))
                  (λ p st pl cc. search-Fed order (suc depth) p st pl cc) kind depth partial
                  (options problem.repository problem.preferences problem.catalog kind partial)
                  (record (note_depth problem depth state) {
                    cache =
                        (filtered_candidates problem.repository problem.preferences problem.catalog
                          kind partial state.cache).1;
                  })
                  plain
                  (options-All problem.repository problem.preferences problem.catalog IsPlain kind
                    partial (fit.plain kind))
                  c' in
              rw (open_, same) (record { outcome = then_.outcome; consistent = then_.consistent })
        ]

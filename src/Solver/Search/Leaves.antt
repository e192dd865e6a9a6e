-- ===== src/Solver/Search/Leaves.antt =====
-- The search of backend/app/services/build_solver.py without its cap, its counters and its cache:
-- the complete builds that it comes to, in order.
use mathlib.Core.List.{append-nil, append_assoc}
use ai_repo.Prelude.{
  ℕ, suc, ◌+◌, ◌-◌, ◌<◌, ◌≡◌, refl, sym, ◌∙◌, true, false, not, List, [], ◌∷◌, ◌++◌, arith, map,
  filter, take, length, if◌then◌else◌, Bool-cases, inl, inr, length-append,
}
use ai_repo.Runtime.{Builtins}
use ai_repo.Domain.{ComponentKind, ComponentNode}
use ai_repo.Solver.Parts.{CandidateBuild, Parts, with_part, max_valid_solver_builds}
use ai_repo.Solver.Options.Transparent.{options}
use ai_repo.Solver.Search.{Problem, is_full, is_good, goes_on}

abbrev pub Results : Type 0 → Type 0
Results F = List (CandidateBuild F) × List (CandidateBuild F)

module _ {A : Type 0} where
  take-nil : (n : ℕ) → take {A = A} n [] ≡ []
  take-nil ℕ.zero = refl
  take-nil (suc n) = refl

module _ {F : Type 0} where
  room_of_full :
      (valid : List (CandidateBuild F))
      → is_full valid ≡ true
      → max_valid_solver_builds - length valid ≡ 0
  unfolding is_full
  room_of_full valid h = ground arith

  room_of_open :
      (valid : List (CandidateBuild F)) (c : CandidateBuild F)
      → is_full valid ≡ false
      → (r : ℕ) × (max_valid_solver_builds - length valid ≡ suc r)
        × (max_valid_solver_builds - length (valid ++ c ∷ []) ≡ r)
  unfolding is_full
  room_of_open valid c h = (
    max_valid_solver_builds - length (valid ++ c ∷ []),
    ground (arith, length-append valid (c ∷ [])),
    refl,
  )

  open_of_lt :
      (valid : List (CandidateBuild F))
      → length valid < max_valid_solver_builds
      → is_full valid ≡ false
  unfolding is_full
  open_of_lt valid h = ground arith

module _ {F : Type 0} ⦃py : Builtins F⦄ (problem : Problem F) where
  unfoldable pub branches :
      (Parts F → List (Parts F))
      → ComponentKind
      → ℕ
      → Parts F
      → List (ComponentNode F)
      → List (Parts F)
  branches deeper kind depth partial [] = []
  branches deeper kind depth partial (node ∷ nodes) =
      let next = with_part kind node partial in
      (if goes_on problem depth next then deeper next else [])
      ++ branches deeper kind depth partial nodes

  unfoldable pub leaves : List ComponentKind → ℕ → Parts F → List (Parts F)
  unfolding branches
  leaves [] depth partial = partial ∷ []
  leaves (kind ∷ order) depth partial =
      branches (leaves order (suc depth)) kind depth partial
        (options problem.repository problem.preferences problem.catalog kind partial)

  -- One complete build goes to the valid ones or to the closest ones.
  unfoldable pub sort_out : CandidateBuild F → Results F → Results F
  sort_out candidate (valid, closest) =
      if is_good problem candidate
      then (valid ++ candidate ∷ [], closest)
      else (valid, closest ++ candidate ∷ [])

  -- The builds in turn, until enough are valid.
  unfoldable pub feed : List (Parts F) → Results F → Results F
  feed [] results = results
  feed (p ∷ builds) results =
      let rest = feed builds (sort_out (problem.evaluate p) results) in
      if is_full results.0 then results else rest

  pub feed_full :
      (builds : List (Parts F)) (results : Results F)
      → is_full results.0 ≡ true
      → feed builds results ≡ results
  unfolding feed
  feed_full [] results e = refl
  feed_full (p ∷ builds) results e = rw e

  pub feed-append :
      (xs ys : List (Parts F)) (results : Results F)
      → feed (xs ++ ys) results ≡ feed ys (feed xs results)
  unfolding feed
  feed-append [] ys results = refl
  feed-append (p ∷ xs) ys results = elim (Bool-cases (is_full results.0)) [
    | inl e ↦ rw e (sym (feed_full ys results e))
    | inr e ↦ rw e (feed-append xs ys (sort_out (problem.evaluate p) results))
  ]

  abbrev pub good_ones : List (Parts F) → List (CandidateBuild F)
  good_ones builds = filter (is_good problem) (map problem.evaluate builds)

  -- What is valid after feeding: the first good ones, up to the cap.
  pub feed-valid :
      (builds : List (Parts F)) (valid closest : List (CandidateBuild F))
      → (feed builds (valid, closest)).0
        ≡ valid ++ take (max_valid_solver_builds - length valid) (good_ones builds)
  unfolding feed sort_out
  feed-valid [] valid closest = rw (take-nil, append-nil)
  feed-valid (p ∷ builds) valid closest = elim (Bool-cases (is_full valid)) [
    | inl full ↦ rw (full, room_of_full valid full) (sym (append-nil _))
    | inr open_ ↦
        let c = problem.evaluate p in
        let (r, room, room') = room_of_open valid c open_ in
        elim (Bool-cases (is_good problem c)) [
          | inl good ↦
              rw (open_, good, room)
                (feed-valid builds (valid ++ c ∷ []) closest ∙ rw (room', append_assoc))
          | inr bad ↦ rw (open_, bad) (feed-valid builds valid (closest ++ c ∷ []))
        ]
  ]

  -- While fewer good ones come than there is room for, the others all go to the closest ones.
  pub feed-closest :
      (builds : List (Parts F)) (valid closest : List (CandidateBuild F))
      → length valid + length (good_ones builds) < max_valid_solver_builds
      → (feed builds (valid, closest)).1
        ≡ closest ++ filter (λ c. not (is_good problem c)) (map problem.evaluate builds)
  unfolding feed sort_out
  feed-closest [] valid closest h = sym (append-nil closest)
  feed-closest (p ∷ builds) valid closest h =
      let c = problem.evaluate p in
      let open_ : is_full valid ≡ false = open_of_lt valid (omega arith) in
      elim (Bool-cases (is_good problem c)) [
        | inl good ↦
            let h' : length valid + suc (length (good_ones builds)) < max_valid_solver_builds =
              rw good at h in
            rw (open_, good)
              (feed-closest builds (valid ++ c ∷ []) closest
                (omega (arith, length-append valid (c ∷ []))))
        | inr bad ↦
            let h' : length valid + length (good_ones builds) < max_valid_solver_builds =
              rw bad at h in
            rw (open_, bad)
              (feed-closest builds valid (closest ++ c ∷ []) h' ∙ append_assoc closest _ _)
      ]

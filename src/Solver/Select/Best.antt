-- ===== src/Solver/Select/Best.antt =====
-- What the choices of backend/app/services/build_solver.py promise: accepted builds, no two alike,
-- and the first one best.
use mathlib.Core.Path.{subst}
use mathlib.Core.Option.{some-injective}
use mathlib.Core.Bool.{false≢true}
use ai_repo.Prelude.{
  String, ◌≡◌, ◌≢◌, refl, sym, ◌∙◌, Option, none, some, true, false, List, [], ◌∷◌, arith,
  Bool-cases, Option-cases, inl, inr, All, In, All-In, any, or-eq-false_iff, eq_iff,
}
use ai_repo.Runtime.{Builtins, IsOrdered}
use ai_repo.Domain.{slots}
use ai_repo.Repository.{Repository}
use ai_repo.Compatibility.{CompatibilityResponse, check}
use ai_repo.Solver.Parts.{CandidateBuild}
use ai_repo.Solver.Select.{
  Signature, same_id, same_signature, is_used, sorted_desc, Verdicts, full_request, Chosen,
  pools_of, choose_builds,
}
use ai_repo.Solver.Select.Sorted.{
  In-sorted_desc, In-sorted_desc_intro, IsDescending, sorted_desc-IsDescending,
}
use ai_repo.Solver.Select.Memo.{AreFaithful, is_accepted, first_accepted, picks, select-picks}

same_id_refl : (a : Option String) → same_id a a ≡ true
unfolding same_id
same_id_refl none = refl
same_id_refl (some a) = ground (arith, eq_iff a a)

same_signature_refl : (s : Signature) → same_signature s s ≡ true
unfolding same_signature
same_signature_refl [] = refl
same_signature_refl (a ∷ s) = rw (same_id_refl a, same_signature_refl s) refl

module _ {F : Type 0} ⦃py : Builtins F⦄ (repository : Repository F) where
  first_accepted-some :
      (pool : List (CandidateBuild F)) (used : List Signature) {c : CandidateBuild F}
      → first_accepted repository pool used ≡ some c
      → In c pool × (is_accepted repository c ≡ true) × (is_used used (slots c.selection) ≡ false)
  unfolding first_accepted
  first_accepted-some [] used e = cc
  first_accepted-some (d ∷ pool) used {c} e = elim (Bool-cases (is_used used (slots d.selection))) [
    | inl u ↦
        let found = first_accepted-some pool used (rw u at e) in (inr found.0, found.1, found.2)
    | inr u ↦ elim (Bool-cases (is_accepted repository d)) [
      | inl a ↦
          let same : d ≡ c = some-injective _ _ (rw (u, a) at e) in
          let rest =
            subst
              (λ x. (is_accepted repository x ≡ true) × (is_used used (slots x.selection) ≡ false))
              same (a, u) in
          (inl (sym same), rest.0, rest.1)
      | inr a ↦
          let found = first_accepted-some pool used (rw (u, a) at e) in
          (inr found.0, found.1, found.2)
    ]
  ]

  -- Only builds of the pools are picked, accepted by the engine and not in use before.
  picks-In :
      (pools : List (String × List (CandidateBuild F))) (used : List Signature)
      (valid : List (CandidateBuild F))
      → All (λ p. (c : CandidateBuild F) → In c p.1 → In c valid) pools
      → (p : String × CandidateBuild F) → In p (picks repository pools used)
      → In p.1 valid
        × (is_accepted repository p.1 ≡ true)
        × (is_used used (slots p.1.selection) ≡ false)
  unfolding picks is_used
  picks-In [] used valid h p m = absurd m
  picks-In ((label, pool) ∷ pools) used valid h p m =
      elim (Option-cases (first_accepted repository pool used)) [
        | inl e ↦ picks-In pools used valid h.1 p (rw (e, picks) at m)
        | inr (c, e) ↦
            let (k, a, u) = first_accepted-some pool used e in
            let m' : In p ((label, c) ∷ picks repository pools (slots c.selection ∷ used)) =
              rw (e, picks) at m in
            elim m' [
              | inl q ↦ rw q (h.0 c k, a, u)
              | inr l ↦
                  let (v, b, w) = picks-In pools (slots c.selection ∷ used) valid h.1 p l in
                  (v, b, ((or-eq-false_iff _ _).0 w).1)
            ]
      ]

  -- No two of the choices select the same parts.
  abbrev pub AreDistinct : List (String × CandidateBuild F) → Type 0
  AreDistinct [] = Unit
  AreDistinct (p ∷ ps) =
      ((q : String × CandidateBuild F) → In q ps → p.1.selection ≢ q.1.selection) × AreDistinct ps

  picks-AreDistinct :
      (pools : List (String × List (CandidateBuild F))) (used : List Signature)
      (valid : List (CandidateBuild F))
      → All (λ p. (c : CandidateBuild F) → In c p.1 → In c valid) pools
      → AreDistinct (picks repository pools used)
  unfolding picks is_used
  picks-AreDistinct [] used valid h = tt
  picks-AreDistinct ((label, pool) ∷ pools) used valid h =
      elim (Option-cases (first_accepted repository pool used)) [
        | inl e ↦ rw (e, picks) (picks-AreDistinct pools used valid h.1)
        | inr (c, e) ↦
            rw (e, picks)
              (
                λ q m same.
                    let (_, _, w) = picks-In pools (slots c.selection ∷ used) valid h.1 q m in
                    let fresh =
                      ((or-eq-false_iff (same_signature (slots q.1.selection) (slots c.selection))
                          (any (same_signature (slots q.1.selection)) used)).0
                        w).0 in
                    absurd (
                      false≢true
                        (sym fresh ∙ rw (← same) (same_signature_refl (slots c.selection)))),
                picks-AreDistinct pools (slots c.selection ∷ used) valid h.1,
              )
      ]

  pools-In :
      (valid : List (CandidateBuild F))
      → All (λ p. (c : CandidateBuild F) → In c p.1 → In c valid) (pools_of valid)
  pools-In valid = (
    (λ c. In-sorted_desc (λ (x : CandidateBuild F). x.performance_score) c valid),
    (
      (λ c. In-sorted_desc (λ (x : CandidateBuild F). x.value_score) c valid),
      ((λ c. In-sorted_desc (λ (x : CandidateBuild F). x.balanced_score) c valid), tt),
    ),
  )

  pub accepted-valid :
      (c : CandidateBuild F)
      → is_accepted repository c ≡ true
      → (r : CompatibilityResponse F) × (check repository (full_request c.selection) ≡ some r)
        × (r.valid ≡ true)
  unfolding is_accepted
  accepted-valid c a = elim (Option-cases (check repository (full_request c.selection))) [
    | inl e ↦ cc (rw (e, is_accepted) at a)
    | inr (r, e) ↦ (r, e, (rw (e, is_accepted) at a))
  ]

  -- In a descending list, the first accepted element is at least every accepted one.
  first_accepted-best :
      (key : CandidateBuild F → F) (pool : List (CandidateBuild F)) (d : CandidateBuild F)
      → All (λ c. py.le (key c) (key c) ≡ true) pool
      → IsDescending key pool
      → In d pool
      → is_accepted repository d ≡ true
      → (c : CandidateBuild F) × (first_accepted repository pool [] ≡ some c)
        × (py.le (key d) (key c) ≡ true)
  unfolding first_accepted is_used
  first_accepted-best key [] d numbers h m a = absurd m
  first_accepted-best key (x ∷ pool) d numbers h m a =
      elim (Bool-cases (is_accepted repository x)) [
        | inl e ↦ (
          x,
          rw e refl,
          elim m [
            | inl q ↦ rw q numbers.0
            | inr k ↦ All-In d (λ z. py.le (key z) (key x) ≡ true) pool h.0 k
          ],
        )
        | inr e ↦ elim m [
          | inl q ↦ absurd (false≢true (sym e ∙ rw (← q) a))
          | inr k ↦
              let (c, found, le) = first_accepted-best key pool d numbers.1 h.1 k a in
              (c, rw e found, le)
        ]
      ]

  module _ (valid : List (CandidateBuild F)) (verdicts : Verdicts F) {out : Chosen F} where
    -- Where it returns, the loop of `_select_multi_solution` gives builds of the list, each with a valid answer
    -- of the engine, and no two of them select the same parts.
    pub select-AreDistinct :
        AreFaithful repository verdicts
        → choose_builds repository valid verdicts ≡ some out
        → AreDistinct out.selected
          × ((p : String × CandidateBuild F)
              → In p out.selected
              → In p.1 valid
                × (r : CompatibilityResponse F) × (check repository (full_request p.1.selection)
                    ≡ some r)
                × (r.valid ≡ true))
    select-AreDistinct h e =
        let (same, _) = select-picks repository valid verdicts h e in
        (
          rw same (picks-AreDistinct (pools_of valid) [] valid (pools-In valid)),
          λ p m.
              let (k, a, _) =
                picks-In (pools_of valid) [] valid (pools-In valid) p (rw same at m) in
              let (r, asked, valid_answer) = accepted-valid p.1 a in (k, r, asked, valid_answer),
        )

    -- With ordered numbers as scores: where it returns and the engine accepts some build of the
    -- list, the first choice is a best performance, and no accepted build of the list has a higher
    -- performance score.
    pub select-best :
        IsOrdered F
        → All (λ (c : CandidateBuild F). py.le c.performance_score c.performance_score ≡ true) valid
        → AreFaithful repository verdicts
        → choose_builds repository valid verdicts ≡ some out
        → (d : CandidateBuild F) → In d valid
        → is_accepted repository d ≡ true
        → (c : CandidateBuild F) × (others : List (String × CandidateBuild F)) × (out.selected
            ≡ ("best_performance", c) ∷ others)
          × (py.le d.performance_score c.performance_score ≡ true)
    unfolding picks
    select-best laws numbers h e d m a =
        let (same, _) = select-picks repository valid verdicts h e in
        let performance = λ (x : CandidateBuild F). x.performance_score in
        let (numbers', descending) = sorted_desc-IsDescending performance laws valid numbers in
        let (c, found, le) =
          first_accepted-best performance (sorted_desc performance valid) d numbers' descending
            (In-sorted_desc_intro performance d valid m) a in
        let others =
          picks repository
            (("best_value", sorted_desc (λ (x : CandidateBuild F). x.value_score) valid)
              ∷ ("balanced", sorted_desc (λ (x : CandidateBuild F). x.balanced_score) valid)
              ∷ [])
            (slots c.selection ∷ []) in
        (c, others, same ∙ rw (found, picks) refl, le)

-- ===== src/UserBuilds/Compare/Counts.antt =====
-- The least and the greatest count, as backend/app/services/user_builds.py finds them.
use mathlib.Core.Path.{subst}
use ai_repo.Prelude.{
  ℕ, ◌≤◌, ◌≡◌, refl, sym, ◌↔◌, inl, inr, true, false, List, [], ◌∷◌, arith, Bool-cases, All, All-In,
  In, ltb, eqb,
}
use ai_repo.UserBuilds.Compare.{least, least_from, greatest, greatest_from}

least_from-better :
    (best x : ℕ) (xs : List ℕ) → ltb x best ≡ true → least_from best (x ∷ xs) ≡ least_from x xs
unfolding least_from
least_from-better best x xs e = rw e refl

least_from-keep :
    (best x : ℕ) (xs : List ℕ) → ltb x best ≡ false → least_from best (x ∷ xs) ≡ least_from best xs
unfolding least_from
least_from-keep best x xs e = rw e refl

least_from-nil : (best : ℕ) → least_from best [] ≤ best
unfolding least_from
least_from-nil best = omega arith

least_from-le :
    (best : ℕ) (xs : List ℕ) → (least_from best xs ≤ best) × All (λ x. least_from best xs ≤ x) xs
least_from-le best [] = (least_from-nil best, tt)
least_from-le best (x ∷ xs) = elim (Bool-cases (ltb x best)) [
  | inl e ↦
      let (h, k) = least_from-le x xs in
      subst (λ n. (n ≤ best) × All (λ y. n ≤ y) (x ∷ xs)) (sym (least_from-better best x xs e))
        (ground (arith, h), (h, k))
  | inr e ↦
      let (h, k) = least_from-le best xs in
      subst (λ n. (n ≤ best) × All (λ y. n ≤ y) (x ∷ xs)) (sym (least_from-keep best x xs e))
        (h, (ground (arith, h), k))
]

least-le : (xs : List ℕ) → All (λ x. least xs ≤ x) xs
unfolding least
least-le [] = tt
least-le (x ∷ xs) = least_from-le x xs

least_from-nil_same : (best : ℕ) → least_from best [] ≡ best
unfolding least_from
least_from-nil_same best = refl

least_from-In : (best : ℕ) (xs : List ℕ) → In (least_from best xs) (best ∷ xs)
least_from-In best [] = inl (least_from-nil_same best)
least_from-In best (x ∷ xs) = elim (Bool-cases (ltb x best)) [
  | inl e ↦
      subst (λ n. In n (best ∷ x ∷ xs)) (sym (least_from-better best x xs e))
        (inr (least_from-In x xs))
  | inr e ↦
      subst (λ n. In n (best ∷ x ∷ xs)) (sym (least_from-keep best x xs e))
        (elim (least_from-In best xs) [ inl q ↦ inl q | inr k ↦ inr (inr k) ])
]

greatest_from-better :
    (best x : ℕ) (xs : List ℕ)
    → ltb best x ≡ true
    → greatest_from best (x ∷ xs) ≡ greatest_from x xs
unfolding greatest_from
greatest_from-better best x xs e = rw e refl

greatest_from-keep :
    (best x : ℕ) (xs : List ℕ)
    → ltb best x ≡ false
    → greatest_from best (x ∷ xs) ≡ greatest_from best xs
unfolding greatest_from
greatest_from-keep best x xs e = rw e refl

greatest_from-nil : (best : ℕ) → best ≤ greatest_from best []
unfolding greatest_from
greatest_from-nil best = omega arith

greatest_from-le :
    (best : ℕ) (xs : List ℕ)
    → (best ≤ greatest_from best xs) × All (λ x. x ≤ greatest_from best xs) xs
greatest_from-le best [] = (greatest_from-nil best, tt)
greatest_from-le best (x ∷ xs) = elim (Bool-cases (ltb best x)) [
  | inl e ↦
      let (h, k) = greatest_from-le x xs in
      subst (λ n. (best ≤ n) × All (λ y. y ≤ n) (x ∷ xs)) (sym (greatest_from-better best x xs e))
        (ground (arith, h), (h, k))
  | inr e ↦
      let (h, k) = greatest_from-le best xs in
      subst (λ n. (best ≤ n) × All (λ y. y ≤ n) (x ∷ xs)) (sym (greatest_from-keep best x xs e))
        (h, (ground (arith, h), k))
]

greatest_from-nil_same : (best : ℕ) → greatest_from best [] ≡ best
unfolding greatest_from
greatest_from-nil_same best = refl

greatest_from-In : (best : ℕ) (xs : List ℕ) → In (greatest_from best xs) (best ∷ xs)
greatest_from-In best [] = inl (greatest_from-nil_same best)
greatest_from-In best (x ∷ xs) = elim (Bool-cases (ltb best x)) [
  | inl e ↦
      subst (λ n. In n (best ∷ x ∷ xs)) (sym (greatest_from-better best x xs e))
        (inr (greatest_from-In x xs))
  | inr e ↦
      subst (λ n. In n (best ∷ x ∷ xs)) (sym (greatest_from-keep best x xs e))
        (elim (greatest_from-In best xs) [ inl q ↦ inl q | inr k ↦ inr (inr k) ])
]

-- A member is the least exactly when it is at most every member.
pub least_iff : (x : ℕ) (xs : List ℕ) → In x xs → (eqb x (least xs) ≡ true) ↔ All (λ y. x ≤ y) xs
unfolding least
least_iff x [] m = absurd m
least_iff x (y ∷ ys) m =
    let h = least_from-le y ys in
    (
      λ e.
          let same : x ≡ least_from y ys = ground arith in
          subst (λ n. All (λ z. n ≤ z) (y ∷ ys)) (sym same) h,
      λ below.
          let k = All-In (least_from y ys) (λ z. x ≤ z) (y ∷ ys) below (least_from-In y ys) in
          let l = All-In x (λ z. least_from y ys ≤ z) (y ∷ ys) h m in ground (arith, k, l),
    )

pub greatest_iff :
    (x : ℕ) (xs : List ℕ) → In x xs → (eqb x (greatest xs) ≡ true) ↔ All (λ y. y ≤ x) xs
unfolding greatest
greatest_iff x [] m = absurd m
greatest_iff x (y ∷ ys) m =
    let h = greatest_from-le y ys in
    (
      λ e.
          let same : x ≡ greatest_from y ys = ground arith in
          subst (λ n. All (λ z. z ≤ n) (y ∷ ys)) (sym same) h,
      λ above.
          let k = All-In (greatest_from y ys) (λ z. z ≤ x) (y ∷ ys) above (greatest_from-In y ys) in
          let l = All-In x (λ z. z ≤ greatest_from y ys) (y ∷ ys) h m in ground (arith, k, l),
    )

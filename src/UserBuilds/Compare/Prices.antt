-- ===== src/UserBuilds/Compare/Prices.antt =====
-- The cheapest price, as backend/app/services/user_builds.py finds it.
use mathlib.Core.Path.{subst}
use ai_repo.Prelude.{
  ◌≡◌, refl, sym, ◌↔◌, inl, inr, some, true, List, [], ◌∷◌, Bool-cases, All, All-In, In,
}
use ai_repo.Runtime.{Builtins, IsOrdered, min_from}
use ai_repo.UserBuilds.Compare.{cheapest_price, same_price}

module _ {F : Type 0} ⦃py : Builtins F⦄ where
  -- A number, away from NaN.
  abbrev pub IsNumber : F → Type 0
  IsNumber x = py.le x x ≡ true

module _ {F : Type 0} ⦃py : Builtins F⦄ (laws : IsOrdered F) where
  open laws use {le_of_lt, le_trans, lt-eq-false_iff, eq-eq-true_iff}

  min_from-le :
      (best : F) (xs : List F)
      → IsNumber best
      → All IsNumber xs
      → (py.le (min_from best xs) best ≡ true) × All (λ x. py.le (min_from best xs) x ≡ true) xs
  min_from-le best [] n ns = (n, tt)
  min_from-le best (x ∷ xs) n ns = elim (Bool-cases (py.lt x best)) [
    | inl e ↦
        let (h, k) = min_from-le x xs ns.0 ns.1 in
        let same : min_from best (x ∷ xs) ≡ min_from x xs = rw e refl in
        subst (λ m. (py.le m best ≡ true) × All (λ y. py.le m y ≡ true) (x ∷ xs)) (sym same)
          (le_trans (min_from x xs) x best h (le_of_lt x best e), (h, k))
    | inr e ↦
        let (h, k) = min_from-le best xs n ns.1 in
        let same : min_from best (x ∷ xs) ≡ min_from best xs = rw e refl in
        subst (λ m. (py.le m best ≡ true) × All (λ y. py.le m y ≡ true) (x ∷ xs)) (sym same)
          (h, (le_trans (min_from best xs) best x h ((lt-eq-false_iff x best ns.0 n).0 e), k))
  ]

  min_from-In : (best : F) (xs : List F) → In (min_from best xs) (best ∷ xs)
  min_from-In best [] = inl refl
  min_from-In best (x ∷ xs) = elim (Bool-cases (py.lt x best)) [
    | inl e ↦
        let same : min_from best (x ∷ xs) ≡ min_from x xs = rw e refl in
        subst (λ m. In m (best ∷ x ∷ xs)) (sym same) (inr (min_from-In x xs))
    | inr e ↦
        let same : min_from best (x ∷ xs) ≡ min_from best xs = rw e refl in
        subst (λ m. In m (best ∷ x ∷ xs)) (sym same)
          (elim (min_from-In best xs) [ inl q ↦ inl q | inr k ↦ inr (inr k) ])
  ]

  -- A price equals the cheapest one exactly when it is at most every price.
  pub cheapest_iff :
      (p : F) (xs : List F)
      → In p xs
      → All IsNumber xs
      → (same_price (some p) (cheapest_price xs) ≡ true) ↔ All (λ q. py.le p q ≡ true) xs
  unfolding cheapest_price
  cheapest_iff p [] m ns = absurd m
  cheapest_iff p (x ∷ xs) m ns =
      let least_price = min_from x xs in
      let (h, k) = min_from-le x xs ns.0 ns.1 in
      (
        λ e.
            let (le, _) = (eq-eq-true_iff p least_price).0 e in
            below p least_price (x ∷ xs) le (h, k),
        λ all. (eq-eq-true_iff p least_price).1 (
          All-In least_price (λ q. py.le p q ≡ true) (x ∷ xs) all (min_from-In x xs),
          All-In p (λ q. py.le least_price q ≡ true) (x ∷ xs) (h, k) m,
        ),
      )
    where
      below :
          (a b : F) (ys : List F)
          → py.le a b ≡ true
          → All (λ q. py.le b q ≡ true) ys
          → All (λ q. py.le a q ≡ true) ys
      below a b [] e h = tt
      below a b (y ∷ ys) e h = (le_trans a b y e h.0, below a b ys e h.1)

-- ===== src/UserBuilds/Compare/Flags.antt =====
-- The flags of a comparison of backend/app/services/user_builds.py mark exactly the best builds.
use ai_repo.Prelude.{
  ◌≤◌, ◌≡◌, refl, sym, ap, ◌∙◌, ◌↔◌, inl, inr, Option, none, some, Bool, true, false, List, [], ◌∷◌,
  map, All, In, In-map_intro, In-map, Option-cases,
}
use ai_repo.Runtime.{Builtins, IsOrdered}
use ai_repo.UserBuilds.Payload.{StoredBuild, Printing}
use ai_repo.UserBuilds.Compare.{
  Metric, least, greatest, warnings, rank, prices, cheapest_price, same_price, metric_of,
  comparison_metrics,
}
use ai_repo.UserBuilds.Compare.Counts.{least_iff, greatest_iff}
use ai_repo.UserBuilds.Compare.Prices.{IsNumber, cheapest_iff}

-- The flag says whether a price is at most every price; a build with no price has none.
abbrev pub MarksCheapest : {F : Type 0} ⦃py : Builtins F⦄ → Bool → Option F → List F → Type 0
MarksCheapest flag none others = flag ≡ false
MarksCheapest ⦃py = py⦄ flag (some p) others = (flag ≡ true) ↔ All (λ q. py.le p q ≡ true) others

-- What the flags of a metric say of its build among the compared ones.
pub record IsFlagged {F : Type 0} ⦃py : Builtins F⦄ (builds : List (StoredBuild F))
    (b : StoredBuild F) (m : Metric F) : Type 0 where
  pub id : m.build_id ≡ b.build_id
  pub safest : (m.safest ≡ true) ↔ All (λ n. warnings b ≤ n) (map warnings builds)
  pub strongest : (m.strongest ≡ true) ↔ All (λ n. n ≤ rank b) (map rank builds)
  pub cheapest : MarksCheapest m.cheapest b.total_price_sar (prices builds)

module _ {F : Type 0} where
  In-prices :
      (b : StoredBuild F) (p : F) (builds : List (StoredBuild F))
      → In b builds
      → b.total_price_sar ≡ some p
      → In p (prices builds)
  In-prices b p [] m e = absurd m
  In-prices b p (c ∷ builds) (inl q) e =
      let e' : c.total_price_sar ≡ some p =
        ap (λ (x : StoredBuild F). x.total_price_sar) (sym q) ∙ e in
      rw e' (inl refl)
  In-prices b p (c ∷ builds) (inr k) e = elim (Option-cases c.total_price_sar) [
    | inl n ↦ rw n (In-prices b p builds k e)
    | inr (r, n) ↦ rw n (inr (In-prices b p builds k e))
  ]

module _ {F : Type 0} ⦃py : Builtins F⦄ (print : Printing F) (laws : IsOrdered F) where
  flag-MarksCheapest :
      (builds : List (StoredBuild F)) (b : StoredBuild F)
      → In b builds
      → All IsNumber (prices builds)
      → MarksCheapest
          (same_price b.total_price_sar (cheapest_price (prices builds)))
          b.total_price_sar
          (prices builds)
  flag-MarksCheapest builds b m ns = elim (Option-cases b.total_price_sar) [
    | inl n ↦ rw n (elim (Option-cases (cheapest_price (prices builds))) [
      | inl k ↦ rw k refl
      | inr (x, k) ↦ rw k refl
    ])
    | inr (p, n) ↦ rw n (cheapest_iff laws p (prices builds) (In-prices b p builds m n) ns)
  ]

  -- With ordered prices that are numbers: each metric of a comparison is for one of the builds, and
  -- marks it as safest, strongest or cheapest exactly when no other build has fewer warnings, a
  -- higher confidence or a lower price; a build with no price is never the cheapest.
  pub comparison_metrics-IsFlagged :
      (builds : List (StoredBuild F))
      → All IsNumber (prices builds)
      → (m : Metric F) → In m (comparison_metrics print builds)
      → (b : StoredBuild F) × In b builds × IsFlagged builds b m
  unfolding comparison_metrics
  comparison_metrics-IsFlagged builds ns m k =
      let metric =
        metric_of print (cheapest_price (prices builds)) (least (map warnings builds))
          (greatest (map rank builds)) in
      let (b, i, e) = In-map metric m builds k in
      (
        b,
        i,
        rw e (record {
          id = refl;
          safest = least_iff (warnings b) (map warnings builds) (In-map_intro warnings b builds i);
          strongest = greatest_iff (rank b) (map rank builds) (In-map_intro rank b builds i);
          cheapest = flag-MarksCheapest builds b i ns;
        }),
      )

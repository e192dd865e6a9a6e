-- ===== src/UserBuilds/Save/Stored.antt =====
-- What `save_build` of backend/app/services/user_builds.py hands to the repository.
use mathlib.Core.Path.{subst}
use mathlib.Core.Option.{some-injective}
use ai_repo.Prelude.{
  String, ◌≡◌, false, List, [], ◌∷◌, take, length, ◌≤◌, In-take, length-take-le, bind-eq-some, some,
  ℕ, suc, ◌++◌,
}
use ai_repo.UserBuilds.Payload.{
  Json, Fields, null, scalar, items, object, Printing, unique, components_texts, component_ids_of,
  price_snapshot_ids_of, get, texts_at,
}
use ai_repo.UserBuilds.Payload.Clean.{IsClean, strip-IsClean}
use ai_repo.UserBuilds.Payload.Unique.{IsUnique, unique-IsUnique}
use ai_repo.UserBuilds.Save.{
  SavedBuildCreateRequest, normalized, warning_summary_of, summary_warnings,
}

-- What the repository may be given.
pub record IsStorable {F : Type 0} (r : SavedBuildCreateRequest F) : Type 0 where
  pub components : IsUnique r.component_ids
  pub snapshots : IsUnique r.price_snapshot_ids
  pub warnings : IsUnique r.warning_summary
  pub few : length r.warning_summary ≤ 20
  pub payload : IsClean false (object r.build_payload)

take-IsUnique : (n : _) (xs : List String) → IsUnique xs → IsUnique (take n xs)
take-IsUnique ℕ.zero xs h = tt
take-IsUnique (suc n) [] h = tt
take-IsUnique (suc n) (x ∷ xs) h = ((λ y m. h.0 y (In-take y n xs m)), take-IsUnique n xs h.1)

module _ {F : Type 0} (py : Printing F) where
  components_texts-IsUnique :
      (read : Fields F → Json F) (v : Json F) → IsUnique (components_texts py read v)
  components_texts-IsUnique read null = tt
  components_texts-IsUnique read (scalar s) = tt
  components_texts-IsUnique read (items xs) = (unique-IsUnique (texts_at py read xs)).0
  components_texts-IsUnique read (object fields) = tt

  component_ids_of-IsUnique :
      (given : List String) (payload : Fields F) → IsUnique (component_ids_of py given payload)
  unfolding component_ids_of
  component_ids_of-IsUnique [] payload = components_texts-IsUnique _ (get "components" payload)
  component_ids_of-IsUnique (x ∷ given) payload = (unique-IsUnique (x ∷ given)).0

  price_snapshot_ids_of-IsUnique :
      (given : List String) (payload : Fields F) → IsUnique (price_snapshot_ids_of py given payload)
  unfolding price_snapshot_ids_of
  price_snapshot_ids_of-IsUnique [] payload = components_texts-IsUnique _ (get "components" payload)
  price_snapshot_ids_of-IsUnique (x ∷ given) payload = (unique-IsUnique (x ∷ given)).0

  -- Where it returns, the request that `save_build` hands to the repository has distinct component ids, distinct price
  -- snapshots, at most 20 distinct warnings, and no blocked key at any depth of its payload.
  pub normalized-IsStorable :
      (request : SavedBuildCreateRequest F) {r : SavedBuildCreateRequest F}
      → normalized py request ≡ some r
      → IsStorable r
  unfolding normalized warning_summary_of
  normalized-IsStorable request e =
      let (warnings, w, e2) =
        bind-eq-some (warning_summary_of py request.warning_summary request.build_payload) _ e in
      let (more, m, e3) =
        bind-eq-some (summary_warnings py (get "summary" request.build_payload))
          (λ more. some (take 20 (unique (request.warning_summary ++ more)))) w in
      let all = request.warning_summary ++ more in
      let kept : take 20 (unique all) ≡ warnings = some-injective _ _ e3 in
      subst IsStorable (some-injective _ _ e2) (record {
        components = component_ids_of-IsUnique request.component_ids request.build_payload;
        snapshots = price_snapshot_ids_of-IsUnique request.price_snapshot_ids request.build_payload;
        warnings = subst IsUnique kept (take-IsUnique 20 (unique all) (unique-IsUnique all).0);
        few = subst (λ l. length l ≤ 20) kept (length-take-le 20 (unique all));
        payload = strip-IsClean py false (object request.build_payload);
      })

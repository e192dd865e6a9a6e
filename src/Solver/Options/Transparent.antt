-- ===== src/Solver/Options/Transparent.antt =====
-- The option cache of backend/app/services/build_solver.py changes no result.
use ai_repo.Prelude.{
  String, ◌≡◌, refl, Option, none, some, List, [], ◌∷◌, IfSome, Option-cases, inl, inr, All,
  filter-All,
}
use ai_repo.Runtime.{Builtins}
use ai_repo.Domain.{ComponentKind, ComponentNode}
use ai_repo.Repository.{Repository}
use ai_repo.Solver.Parts.{BuildPreferences, Parts, part}
use ai_repo.Solver.Options.{
  CacheKey, OptionCache, cached, with_ids, through_cache, filtered_candidates,
  filtered_motherboards, filtered_ram,
}
use ai_repo.Solver.Options.Consistent.{
  IsPlain, HasUniqueIds, IsConsistent, add_motherboards, add_ram, add_cases,
}

-- The ids of the chosen parts can stand in the keys of the cache.
abbrev pub HasPlainIds : {F : Type 0} → Parts F → Type 0
HasPlainIds partial = (kind : ComponentKind) → IfSome (part kind partial) IsPlain

module _ {F : Type 0} ⦃py : Builtins F⦄ (repository : Repository F)
    (preferences : BuildPreferences F) (catalog : ComponentKind → List (ComponentNode F)) where
  -- What the search would see with no cache.
  unfoldable pub options : ComponentKind → Parts F → List (ComponentNode F)
  options kind partial = (filtered_candidates repository preferences catalog kind partial []).0

  abbrev Good : List (ComponentNode F) → List (ComponentNode F) × OptionCache → Type 0
  Good answer out = (out.0 ≡ answer) × IsConsistent repository preferences catalog out.1

  through_cache-Good :
      (key : CacheKey) (candidates answer : List (ComponentNode F)) (store : List String)
      (cache : OptionCache)
      → IsConsistent repository preferences catalog cache
      → IsConsistent repository preferences catalog ((key, store) ∷ cache)
      → ((ids : List String) → cached key cache ≡ some ids → with_ids ids candidates ≡ answer)
      → Good answer (through_cache repository preferences key candidates answer store cache)
  through_cache-Good key candidates answer store cache c c' hit =
      elim (Option-cases (cached key cache)) [
        | inl e ↦ rw (e, through_cache) (refl, c')
        | inr (ids, e) ↦ rw (e, through_cache) (hit ids e, c)
      ]

  -- With unique ids in the catalogue's cases and no ":" or "*" in the ids of the chosen parts, the
  -- cache never changes the candidates, and it stays fit for the next call.
  pub filtered_candidates_transparent :
      (kind : ComponentKind) (partial : Parts F) (cache : OptionCache)
      → HasUniqueIds (catalog ComponentKind.case)
      → HasPlainIds partial
      → IsConsistent repository preferences catalog cache
      → let out = filtered_candidates repository preferences catalog kind partial cache in
        (out.0 ≡ options kind partial) × IsConsistent repository preferences catalog out.1
  unfolding filtered_candidates options cached
  filtered_candidates_transparent ComponentKind.motherboard partial cache unique plain c =
      boards (part ComponentKind.cpu partial)
    where
      boards :
          (o : Option (ComponentNode F))
          → Good
              (filtered_motherboards repository preferences
                (catalog ComponentKind.motherboard)
                o
                []).0
              (filtered_motherboards repository preferences
                (catalog ComponentKind.motherboard)
                o
                cache)
      boards none = (refl, c)
      boards (some cpu) =
          through_cache-Good _ _ _ _ cache c
            (add_motherboards repository preferences catalog cache c cpu) (c.motherboards cpu)
  filtered_candidates_transparent ComponentKind.ram partial cache unique plain c =
      kits (part ComponentKind.motherboard partial)
    where
      kits :
          (o : Option (ComponentNode F))
          → Good
              (filtered_ram repository preferences (catalog ComponentKind.ram) o []).0
              (filtered_ram repository preferences (catalog ComponentKind.ram) o cache)
      kits none = (refl, c)
      kits (some board) =
          through_cache-Good _ _ _ _ cache c (add_ram repository preferences catalog cache c board)
            (c.ram board)
  filtered_candidates_transparent ComponentKind.case partial cache unique plain c =
      let board = part ComponentKind.motherboard partial in
      let gpu = part ComponentKind.gpu partial in
      let h = plain ComponentKind.motherboard in
      let k = plain ComponentKind.gpu in
      through_cache-Good _ _ _ _ cache c
        (add_cases repository preferences catalog cache c board gpu h k unique)
        (λ ids e. c.cases board gpu ids h k e)
  filtered_candidates_transparent kind partial cache unique plain c = (refl, c)

  -- Whatever holds of all nodes of the catalogue holds of the options.
  pub options-All :
      (P : ComponentNode F → Type 0) (kind : ComponentKind) (partial : Parts F)
      → All P (catalog kind)
      → All P (options kind partial)
  unfolding options filtered_candidates cached
  options-All P ComponentKind.motherboard partial h = boards (part ComponentKind.cpu partial)
    where
      boards :
          (o : Option (ComponentNode F))
          → All P
              (filtered_motherboards repository preferences
                (catalog ComponentKind.motherboard)
                o
                []).0
      boards none = h
      boards (some cpu) = filter-All P _ (catalog ComponentKind.motherboard) h
  options-All P ComponentKind.ram partial h = kits (part ComponentKind.motherboard partial)
    where
      kits :
          (o : Option (ComponentNode F))
          → All P (filtered_ram repository preferences (catalog ComponentKind.ram) o []).0
      kits none = h
      kits (some board) = filter-All P _ (catalog ComponentKind.ram) h
  options-All P ComponentKind.case partial h =
      filter-All P _ _ (filter-All P _ (catalog ComponentKind.case) h)
  options-All P kind partial h = h

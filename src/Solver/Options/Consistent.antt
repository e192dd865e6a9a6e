-- ===== src/Solver/Options/Consistent.antt =====
-- Caches of option ids of backend/app/services/build_solver.py that stand for their queries.
use mathlib.Core.Path.{ap₂}
use mathlib.Core.Bool.{false≢true}
use ai_repo.Prelude.{
  String, ◌⊎◌, ◌≡◌, ◌≢◌, refl, sym, ap, ◌∙◌, Option, none, some, Bool, true, false, ◌&&◌, arith,
  Bool-cases, inl, inr, List, [], ◌∷◌, map, elem, filter, In, In-filter, In-filter_intro, IfSome,
  ◌==◌, eq_iff, elem_iff,
}
use ai_repo.Runtime.{Builtins}
use ai_repo.Domain.{ComponentKind, ComponentNode}
use ai_repo.Repository.{Repository}
use ai_repo.Solver.Parts.{BuildPreferences}
use ai_repo.Solver.Options.{
  OptionCache, cached, no_selection, option_limit, id_or_star, optional_id, size_or_star,
  motherboard_key, ram_key, case_key, with_ids, motherboard_ids, ram_ids, case_ids, size_matches,
  cases_for, ids_of,
}
use ai_repo.Solver.Options.Keys.{has_no_colon, case_text_inj, motherboard_text_inj}

filter_congr :
    {A : Type 0} (p q : A → Bool) (xs : List A)
    → ((x : A) → In x xs → p x ≡ q x)
    → filter p xs ≡ filter q xs
filter_congr p q [] h = refl
filter_congr p q (x ∷ xs) h = rw (h x (inl refl), filter_congr p q xs (λ y m. h y (inr m)))

filter-filter :
    {A : Type 0} (p q : A → Bool) (xs : List A)
    → filter q (filter p xs) ≡ filter (λ x. p x && q x) xs
filter-filter p q [] = refl
filter-filter p q (x ∷ xs) = ground (arith, filter-filter p q xs)

-- A cache with one more entry, read at a key of its kind, and at one of another.
cached-cons :
    (tag text text' : String) (ids : List String) (cache : OptionCache) {found : List String}
    → cached (tag, text) (((tag, text'), ids) ∷ cache) ≡ some found
    → ((text' ≡ text) × (ids ≡ found)) ⊎ (cached (tag, text) cache ≡ some found)
unfolding cached
cached-cons tag text text' ids cache e = ground (arith, eq_iff tag tag, eq_iff text' text)

cached-cons_ne :
    (tag tag' text text' : String) (ids : List String) (cache : OptionCache)
    → (tag' == tag) ≡ false
    → cached (tag, text) (((tag', text'), ids) ∷ cache) ≡ cached (tag, text) cache
unfolding cached
cached-cons_ne tag tag' text text' ids cache e = ground arith

module _ {F : Type 0} where
  -- An id that the keys of the cache can carry.
  pub record IsPlain (n : ComponentNode F) : Type 0 where
    pub no_colon : has_no_colon n.id ≡ true
    pub no_star : n.id ≢ "*"

  -- Two nodes of the list with one id are one node.
  abbrev pub HasUniqueIds : List (ComponentNode F) → Type 0
  HasUniqueIds nodes = (a b : ComponentNode F) → In a nodes → In b nodes → a.id ≡ b.id → a ≡ b

  id_or_star-has_no_colon :
      (o : Option (ComponentNode F)) → IfSome o IsPlain → has_no_colon (id_or_star o) ≡ true
  unfolding has_no_colon
  id_or_star-has_no_colon none h = refl
  id_or_star-has_no_colon (some n) h = h.no_colon

  optional_id_of_text :
      (a b : Option (ComponentNode F))
      → IfSome a IsPlain
      → IfSome b IsPlain
      → id_or_star a ≡ id_or_star b
      → optional_id a ≡ optional_id b
  optional_id_of_text none none h k e = refl
  optional_id_of_text none (some m) h k e = absurd (k.no_star (sym e))
  optional_id_of_text (some n) none h k e = absurd (h.no_star e)
  optional_id_of_text (some n) (some m) h k e = ap some e

  In-ids_of :
      (id : String) (some_nodes : List (ComponentNode F))
      → In id (map (λ (n : ComponentNode F). n.id) some_nodes)
      → (d : ComponentNode F) × In d some_nodes × (id ≡ d.id)
  In-ids_of id [] m = absurd m
  In-ids_of id (n ∷ ns) (inl e) = (n, inl refl, e)
  In-ids_of id (n ∷ ns) (inr m) = let (d, i, e) = In-ids_of id ns m in (d, inr i, e)

  id-In :
      (n : ComponentNode F) (some_nodes : List (ComponentNode F))
      → In n some_nodes
      → In n.id (map (λ (n : ComponentNode F). n.id) some_nodes)
  id-In n [] m = absurd m
  id-In n (x ∷ ns) (inl e) = inl (ap (λ (n : ComponentNode F). n.id) e)
  id-In n (x ∷ ns) (inr m) = inr (id-In n ns m)

  module _ (p : ComponentNode F → Bool) (nodes : List (ComponentNode F)) where
    abbrev kept : List String
    kept = map (λ (n : ComponentNode F). n.id) (filter p nodes)

    elem-kept : HasUniqueIds nodes → (c : ComponentNode F) → In c nodes → elem c.id kept ≡ p c
    elem-kept unique c m = elim (Bool-cases (p c)) [
      | inl e ↦ rw e ((elem_iff c.id _).1 (id-In c _ (In-filter_intro c p nodes m e)))
      | inr e ↦ elim (Bool-cases (elem c.id kept)) [
        | inl k ↦
            let (d, i, same) = In-ids_of c.id (filter p nodes) ((elem_iff c.id _).0 k) in
            let (there, passed) = In-filter d p nodes i in
            absurd (false≢true (sym e ∙ ap p (unique c d m there same) ∙ passed))
        | inr k ↦ k ∙ sym e
      ]
    ]

    -- Filtering by the ids of what a filter kept keeps the same nodes.
    with_ids-kept : HasUniqueIds nodes → with_ids kept nodes ≡ filter p nodes
    with_ids-kept unique = filter_congr _ p nodes (elem-kept unique)

module _ {F : Type 0} ⦃py : Builtins F⦄ (repository : Repository F)
    (preferences : BuildPreferences F) (catalog : ComponentKind → List (ComponentNode F)) where
  with_ids-cases_for :
      (nodes : List (ComponentNode F)) (allowed : List String)
      → HasUniqueIds nodes
      → with_ids
          (ids_of repository preferences (cases_for repository preferences nodes allowed))
          nodes
        ≡ cases_for repository preferences nodes allowed
  with_ids-cases_for nodes allowed unique =
      let p = λ (c : ComponentNode F). elem c.id allowed in
      let q = size_matches repository preferences in
      let both = filter-filter p q nodes in rw both (with_ids-kept (λ c. p c && q c) nodes unique)

  -- Every entry of the cache gives the nodes that its query gives.
  pub record IsConsistent (cache : OptionCache) : Type 0 where
    pub motherboards :
        (cpu : ComponentNode F) (ids : List String)
        → cached (motherboard_key preferences cpu) cache ≡ some ids
        → with_ids ids (catalog ComponentKind.motherboard)
          ≡ with_ids
              (motherboard_ids repository preferences cpu)
              (catalog ComponentKind.motherboard)
    pub ram :
        (board : ComponentNode F) (ids : List String)
        → cached (ram_key board) cache ≡ some ids
        → with_ids ids (catalog ComponentKind.ram)
          ≡ with_ids (ram_ids repository preferences board) (catalog ComponentKind.ram)
    pub cases :
        (board gpu : Option (ComponentNode F)) (ids : List String)
        → IfSome board IsPlain
        → IfSome gpu IsPlain
        → cached (case_key preferences board gpu) cache ≡ some ids
        → with_ids ids (catalog ComponentKind.case)
          ≡ cases_for repository preferences
              (catalog ComponentKind.case)
              (case_ids repository preferences board gpu)

  pub nil-IsConsistent : IsConsistent []
  unfolding cached
  nil-IsConsistent = record {
    motherboards = λ cpu ids e. cc;
    ram = λ board ids e. cc;
    cases = λ board gpu ids h k e. cc;
  }

  same_board_query :
      (cpu cpu' : ComponentNode F)
      → cpu'.id ≡ cpu.id
      → motherboard_ids repository preferences cpu' ≡ motherboard_ids repository preferences cpu
  same_board_query cpu cpu' e =
      ap
        (λ id.
          repository.component_options ComponentKind.motherboard
            (record no_selection { cpu_id = some id }) option_limit true preferences.size)
        e

  same_ram_query :
      (b b' : ComponentNode F)
      → b'.id ≡ b.id
      → ram_ids repository preferences b' ≡ ram_ids repository preferences b
  same_ram_query b b' e =
      ap
        (λ id.
          repository.component_options ComponentKind.ram
            (record no_selection { motherboard_id = some id }) option_limit true none)
        e

  same_case_query :
      (b b' g g' : Option (ComponentNode F))
      → optional_id b' ≡ optional_id b
      → optional_id g' ≡ optional_id g
      → case_ids repository preferences b' g' ≡ case_ids repository preferences b g
  same_case_query b b' g g' e k =
      ap₂
        (λ i j.
          repository.component_options ComponentKind.case
            (record no_selection { motherboard_id = i; gpu_id = j }) option_limit true none)
        e k

  module _ (cache : OptionCache) (c : IsConsistent cache) where
    pub add_motherboards :
        (cpu : ComponentNode F)
        → IsConsistent
            ((motherboard_key preferences cpu, motherboard_ids repository preferences cpu) ∷ cache)
    add_motherboards cpu = record {
      motherboards = λ other ids e. elim (cached-cons _ _ _ _ cache e) [
        | inl (text, same) ↦
            let id = motherboard_text_inj cpu.id other.id (size_or_star preferences) text in
            ap (λ l. with_ids l (catalog ComponentKind.motherboard))
              (sym same ∙ same_board_query other cpu id)
        | inr old ↦ c.motherboards other ids old
      ];
      ram = λ board ids e. c.ram board ids (sym (cached-cons_ne _ _ _ _ _ cache refl) ∙ e);
      cases = λ board gpu ids h k e.
          c.cases board gpu ids h k (sym (cached-cons_ne _ _ _ _ _ cache refl) ∙ e);
    }

    pub add_ram :
        (board : ComponentNode F)
        → IsConsistent ((ram_key board, ram_ids repository preferences board) ∷ cache)
    add_ram board = record {
      motherboards =
          λ cpu ids e. c.motherboards cpu ids (sym (cached-cons_ne _ _ _ _ _ cache refl) ∙ e);
      ram = λ other ids e. elim (cached-cons _ _ _ _ cache e) [
        | inl (text, same) ↦
            ap (λ l. with_ids l (catalog ComponentKind.ram))
              (sym same ∙ same_ram_query other board text)
        | inr old ↦ c.ram other ids old
      ];
      cases = λ board' gpu ids h k e.
          c.cases board' gpu ids h k (sym (cached-cons_ne _ _ _ _ _ cache refl) ∙ e);
    }

    pub add_cases :
        (board gpu : Option (ComponentNode F))
        → IfSome board IsPlain
        → IfSome gpu IsPlain
        → HasUniqueIds (catalog ComponentKind.case)
        → IsConsistent (
            (
              case_key preferences board gpu,
              ids_of repository preferences (
                  cases_for repository preferences
                    (catalog ComponentKind.case)
                    (case_ids repository preferences board gpu)),
            )
            ∷ cache)
    add_cases board gpu h k unique = record {
      motherboards =
          λ cpu ids e. c.motherboards cpu ids (sym (cached-cons_ne _ _ _ _ _ cache refl) ∙ e);
      ram = λ b ids e. c.ram b ids (sym (cached-cons_ne _ _ _ _ _ cache refl) ∙ e);
      cases = λ board' gpu' ids h' k' e. elim (cached-cons _ _ _ _ cache e) [
        | inl (text, same) ↦
            let (b, g) =
              case_text_inj (id_or_star board) (id_or_star gpu) (id_or_star board')
                (id_or_star gpu') (size_or_star preferences) (id_or_star-has_no_colon board h)
                (id_or_star-has_no_colon board' h') text in
            let query =
              same_case_query board' board gpu' gpu (optional_id_of_text board board' h h' b)
                (optional_id_of_text gpu gpu' k k' g) in
            ap (λ l. with_ids l (catalog ComponentKind.case)) (sym same)
            ∙ with_ids-cases_for (catalog ComponentKind.case)
                (case_ids repository preferences board gpu) unique
            ∙ ap (cases_for repository preferences (catalog ComponentKind.case)) query
        | inr old ↦ c.cases board' gpu' ids h' k' old
      ];
    }

-- ===== src/UserBuilds/Payload/Unique.antt =====
-- `list(dict.fromkeys(…))` of backend/app/services/user_builds.py.
use ai_repo.Prelude.{
  String, ◌≡◌, ◌≢◌, refl, sym, ap, ◌↔◌, inl, inr, Bool, true, not, List, [], ◌∷◌, filter,
  Bool-cases, In, In-filter, In-filter_intro, ◌==◌, eq_iff,
}
use ai_repo.UserBuilds.Payload.{unique}

-- No text occurs twice.
abbrev pub IsUnique : List String → Type 0
IsUnique [] = Unit
IsUnique (x ∷ xs) = ((y : String) → In y xs → x ≢ y) × IsUnique xs

filter-IsUnique : (p : String → Bool) (xs : List String) → IsUnique xs → IsUnique (filter p xs)
filter-IsUnique p [] h = h
filter-IsUnique p (x ∷ xs) h = elim (Bool-cases (p x)) [
  | inl e ↦ rw e ((λ y m. h.0 y (In-filter y p xs m).0), filter-IsUnique p xs h.1)
  | inr e ↦ rw e (filter-IsUnique p xs h.1)
]

unique-In : (y : String) (xs : List String) → In y (unique xs) ↔ In y xs
unfolding unique
unique-In y [] = (λ m. m, λ m. m)
unique-In y (x ∷ xs) = (
  λ m. elim m [
    | inl q ↦ inl q
    | inr k ↦ inr ((unique-In y xs).0 (In-filter y (λ z. not (z == x)) (unique xs) k).0)
  ],
  λ m. elim (Bool-cases (y == x)) [
    | inl e ↦ inl ((eq_iff y x).0 e)
    | inr e ↦ elim m [
      | inl q ↦ inl q
      | inr k ↦
          inr (In-filter_intro y (λ z. not (z == x)) (unique xs) ((unique-In y xs).1 k) (rw e refl))
    ]
  ],
)

-- Of a list of texts, what is kept holds the same texts, each once.
pub unique-IsUnique :
    (xs : List String) → IsUnique (unique xs) × ((y : String) → In y (unique xs) ↔ In y xs)
unfolding unique
unique-IsUnique [] = (tt, λ y. unique-In y [])
unique-IsUnique (x ∷ xs) = (
  (
    (λ y m same.
        let kept = (In-filter y (λ z. not (z == x)) (unique xs) m).1 in
        let e : (y == x) ≡ true = (eq_iff y x).1 (sym same) in cc (rw e at kept)),
    filter-IsUnique (λ z. not (z == x)) (unique xs) (unique-IsUnique xs).0,
  ),
  λ y. unique-In y (x ∷ xs),
)

-- A list without repetitions is kept as it is.
filter_all :
    (p : String → Bool) (xs : List String)
    → ((y : String) → In y xs → p y ≡ true)
    → filter p xs ≡ xs
filter_all p [] h = refl
filter_all p (x ∷ xs) h =
    rw (h x (inl refl)) (ap (λ l. x ∷ l) (filter_all p xs (λ y m. h y (inr m))))

-- So `unique` changes nothing the second time.
pub unique-unique : (xs : List String) → IsUnique xs → unique xs ≡ xs
unfolding unique
unique-unique [] h = refl
unique-unique (x ∷ xs) h = rw (unique-unique xs h.1) (
    ap (λ l. x ∷ l)
      (filter_all (λ y. not (y == x)) xs
        (λ y m. elim (Bool-cases (y == x)) [
          | inl e ↦ absurd (h.0 y m (sym ((eq_iff y x).0 e)))
          | inr e ↦ rw e refl
        ])))

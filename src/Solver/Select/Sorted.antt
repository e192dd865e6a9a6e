-- ===== src/Solver/Select/Sorted.antt =====
-- `sorted(…, reverse=True)`, as backend/app/services/build_solver.py uses it: the same elements, the
-- greatest first.
use ai_repo.Prelude.{◌≡◌, true, List, [], ◌∷◌, Bool-cases, inl, inr, All, In}
use ai_repo.Runtime.{Builtins, IsOrdered}
use ai_repo.Solver.Select.{insert_desc, sorted_desc}

module _ {F : Type 0} ⦃py : Builtins F⦄ {A : Type 0} (key : A → F) where
  In-insert_desc : (a x : A) (ys : List A) → In a (insert_desc key x ys) → In a (x ∷ ys)
  unfolding insert_desc
  In-insert_desc a x [] m = m
  In-insert_desc a x (y ∷ ys) m = elim (Bool-cases (py.lt (key x) (key y))) [
    | inl e ↦
        let m' : In a (y ∷ insert_desc key x ys) = rw e at m in
        elim m' [
          | inl q ↦ inr (inl q)
          | inr k ↦ elim (In-insert_desc a x ys k) [ inl q ↦ inl q | inr l ↦ inr (inr l) ]
        ]
    | inr e ↦ rw e at m
  ]

  pub In-sorted_desc : (a : A) (xs : List A) → In a (sorted_desc key xs) → In a xs
  unfolding sorted_desc
  In-sorted_desc a [] m = m
  In-sorted_desc a (x ∷ xs) m = elim (In-insert_desc a x (sorted_desc key xs) m) [
    | inl q ↦ inl q
    | inr k ↦ inr (In-sorted_desc a xs k)
  ]

  In-insert_desc_intro : (a x : A) (ys : List A) → In a (x ∷ ys) → In a (insert_desc key x ys)
  unfolding insert_desc
  In-insert_desc_intro a x [] m = m
  In-insert_desc_intro a x (y ∷ ys) m = elim (Bool-cases (py.lt (key x) (key y))) [
    | inl e ↦ rw e (elim m [
      | inl q ↦ inr (In-insert_desc_intro a x ys (inl q))
      | inr k ↦ elim k [ inl q ↦ inl q | inr l ↦ inr (In-insert_desc_intro a x ys (inr l)) ]
    ])
    | inr e ↦ rw e m
  ]

  pub In-sorted_desc_intro : (a : A) (xs : List A) → In a xs → In a (sorted_desc key xs)
  unfolding sorted_desc
  In-sorted_desc_intro a [] m = m
  In-sorted_desc_intro a (x ∷ xs) (inl q) = In-insert_desc_intro a x (sorted_desc key xs) (inl q)
  In-sorted_desc_intro a (x ∷ xs) (inr k) =
      In-insert_desc_intro a x (sorted_desc key xs) (inr (In-sorted_desc_intro a xs k))

  insert_desc-All :
      (P : A → Type 0) (x : A) (ys : List A) → P x → All P ys → All P (insert_desc key x ys)
  unfolding insert_desc
  insert_desc-All P x [] p h = (p, tt)
  insert_desc-All P x (y ∷ ys) p h = elim (Bool-cases (py.lt (key x) (key y))) [
    | inl e ↦ rw e (h.0, insert_desc-All P x ys p h.1)
    | inr e ↦ rw e (p, h)
  ]

  pub sorted_desc-All : (P : A → Type 0) (xs : List A) → All P xs → All P (sorted_desc key xs)
  unfolding sorted_desc
  sorted_desc-All P [] h = tt
  sorted_desc-All P (x ∷ xs) h =
      insert_desc-All P x (sorted_desc key xs) h.0 (sorted_desc-All P xs h.1)

  -- Each key is at least all later ones.
  abbrev pub IsDescending : List A → Type 0
  IsDescending [] = Unit
  IsDescending (x ∷ xs) = All (λ y. py.le (key y) (key x) ≡ true) xs × IsDescending xs

  module _ (laws : IsOrdered F) where
    open laws use {le_of_lt, le_trans, lt-eq-false_iff}

    below :
        (x y : A) (zs : List A)
        → py.le (key y) (key x) ≡ true
        → All (λ z. py.le (key z) (key y) ≡ true) zs
        → All (λ z. py.le (key z) (key x) ≡ true) zs
    below x y [] e h = tt
    below x y (z ∷ zs) e h = (le_trans (key z) (key y) (key x) h.0 e, below x y zs e h.1)

    insert_desc-IsDescending :
        (x : A) (ys : List A)
        → py.le (key x) (key x) ≡ true
        → All (λ y. py.le (key y) (key y) ≡ true) ys
        → IsDescending ys
        → IsDescending (insert_desc key x ys)
    unfolding insert_desc
    insert_desc-IsDescending x [] n ns h = (tt, tt)
    insert_desc-IsDescending x (y ∷ ys) n ns h = elim (Bool-cases (py.lt (key x) (key y))) [
      | inl e ↦ rw e (
        insert_desc-All (λ z. py.le (key z) (key y) ≡ true) x ys (le_of_lt (key x) (key y) e) h.0,
        insert_desc-IsDescending x ys n ns.1 h.1,
      )
      | inr e ↦
          let k : py.le (key y) (key x) ≡ true = (lt-eq-false_iff (key x) (key y) n ns.0).0 e in
          rw e ((k, below x y ys k h.0), h)
    ]

    pub sorted_desc-IsDescending :
        (xs : List A)
        → All (λ x. py.le (key x) (key x) ≡ true) xs
        → All (λ x. py.le (key x) (key x) ≡ true) (sorted_desc key xs)
          × IsDescending (sorted_desc key xs)
    unfolding sorted_desc
    sorted_desc-IsDescending [] ns = (tt, tt)
    sorted_desc-IsDescending (x ∷ xs) ns =
        let (numbers, descending) = sorted_desc-IsDescending xs ns.1 in
        (
          insert_desc-All (λ y. py.le (key y) (key y) ≡ true) x (sorted_desc key xs) ns.0 numbers,
          insert_desc-IsDescending x (sorted_desc key xs) ns.0 numbers descending,
        )

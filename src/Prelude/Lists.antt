-- ===== src/Prelude/Lists.antt =====
-- Lists with Boolean tests and native lengths, under the library's names.
use Prim.Native.Nat.{ℕ, zero, suc, ◌+◌, ◌≤◌, ◌<◌}
use Prim.Native.String.{String}
use mathlib.Core.Path.{sym, ◌≡◌, refl, ap}
use mathlib.Core.Logic.{◌⊎◌, ◌↔◌, inl, inr}
use mathlib.Core.Bool.{Bool, true, false, ◌&&◌, ◌||◌}
use mathlib.Core.List.{List, [], ◌∷◌, ◌++◌, map}
use mathlib.Core.Option.{Option, none, some}
use native.Mathlib.Omega.{arith}
use text.Mathlib.Text.{◌==◌}
use text.Mathlib.TextEquality.{eq_iff}
use ai_repo.Prelude.Tests.{if◌then◌else◌, Bool-cases}

module _ {ℓ} {A : Type ℓ} where
  abbrev pub length : List A → ℕ
  length [] = 0
  length (x ∷ xs) = suc (length xs)

  abbrev pub any : (A → Bool) → List A → Bool
  any p [] = false
  any p (x ∷ xs) = p x || any p xs

  abbrev pub all : (A → Bool) → List A → Bool
  all p [] = true
  all p (x ∷ xs) = p x && all p xs

  -- `[x for x in xs if p(x)]`
  abbrev pub filter : (A → Bool) → List A → List A
  filter p [] = []
  filter p (x ∷ xs) = let rest = filter p xs in if p x then x ∷ rest else rest

  abbrev pub take : ℕ → List A → List A
  take zero xs = []
  take (suc n) [] = []
  take (suc n) (x ∷ xs) = x ∷ take n xs

  abbrev pub is_empty : List A → Bool
  is_empty [] = true
  is_empty (x ∷ xs) = false

  abbrev pub All {κ} : (A → Type κ) → List A → Type κ
  All P [] = Unit
  All P (x ∷ xs) = P x × All P xs

  -- `[x for o in xs if (x := o) is not None]`
  abbrev pub somes : List (Option A) → List A
  somes [] = []
  somes (none ∷ xs) = somes xs
  somes (some x ∷ xs) = x ∷ somes xs

module _ {ℓ} {A : Type ℓ} where
  pub length-append : (xs ys : List A) → length (xs ++ ys) ≡ length xs + length ys
  length-append [] ys = omega arith
  length-append (x ∷ xs) ys = omega (arith, length-append xs ys)

  pub any-append : (p : A → Bool) (xs ys : List A) → any p (xs ++ ys) ≡ (any p xs || any p ys)
  any-append p [] ys = refl
  any-append p (x ∷ xs) ys = ground (arith, any-append p xs ys)

  pub length-take-le : (n : ℕ) (xs : List A) → length (take n xs) ≤ n
  length-take-le zero xs = omega arith
  length-take-le (suc n) [] = omega arith
  length-take-le (suc n) (x ∷ xs) = omega (arith, length-take-le n xs)

  pub All-append {κ} : (P : A → Type κ) (xs ys : List A) → All P xs → All P ys → All P (xs ++ ys)
  All-append P [] ys h k = k
  All-append P (x ∷ xs) ys h k = (h.0, All-append P xs ys h.1 k)

module _ {A : Type 0} where
  pub append-eq-nil : (xs ys : List A) → xs ++ ys ≡ [] → (xs ≡ []) × (ys ≡ [])
  append-eq-nil [] ys h = (refl, h)
  append-eq-nil (x ∷ xs) ys h = cc

module _ {A : Type 0} where
  -- `[x for xs in xss for x in xs]`
  abbrev pub concat : List (List A) → List A
  concat [] = []
  concat (xs ∷ xss) = xs ++ concat xss

  pub concat-eq-nil_iff : (xss : List (List A)) → (concat xss ≡ []) ↔ All (λ xs. xs ≡ []) xss
  concat-eq-nil_iff [] = (λ _. tt, λ _. refl)
  concat-eq-nil_iff (xs ∷ xss) = (
    λ h. let (e, k) = append-eq-nil xs (concat xss) h in (e, (concat-eq-nil_iff xss).0 k),
    λ h. rw (h.0, (concat-eq-nil_iff xss).1 h.1) refl,
  )

module _ {ℓ κ} {A : Type ℓ} (P : A → Type κ) where
  pub filter-All : (p : A → Bool) (xs : List A) → All P xs → All P (filter p xs)
  filter-All p [] h = h
  filter-All p (x ∷ xs) h = elim (Bool-cases (p x)) [
    | inl e ↦ rw e (h.0, filter-All p xs h.1)
    | inr e ↦ rw e (filter-All p xs h.1)
  ]

-- Membership as data, for case splits.
abbrev pub In : {A : Type 0} → A → List A → Type 0
In a [] = ⊥
In a (x ∷ xs) = (a ≡ x) ⊎ In a xs

module _ {A : Type 0} (a : A) where
  pub All-In {κ} : (P : A → Type κ) (xs : List A) → All P xs → In a xs → P a
  All-In P [] h m = absurd m
  All-In P (x ∷ xs) h (inl e) = rw e h.0
  All-In P (x ∷ xs) h (inr m) = All-In P xs h.1 m

  pub In-append_left : (xs ys : List A) → In a xs → In a (xs ++ ys)
  In-append_left [] ys m = absurd m
  In-append_left (x ∷ xs) ys (inl e) = inl e
  In-append_left (x ∷ xs) ys (inr m) = inr (In-append_left xs ys m)

  pub In-append_right : (xs ys : List A) → In a ys → In a (xs ++ ys)
  In-append_right [] ys m = m
  In-append_right (x ∷ xs) ys m = inr (In-append_right xs ys m)

  pub In-append_cases : (xs ys : List A) → In a (xs ++ ys) → In a xs ⊎ In a ys
  In-append_cases [] ys m = inr m
  In-append_cases (x ∷ xs) ys (inl e) = inl (inl e)
  In-append_cases (x ∷ xs) ys (inr m) = elim (In-append_cases xs ys m) [
    | inl k ↦ inl (inr k)
    | inr k ↦ inr k
  ]

  pub In-filter : (p : A → Bool) (xs : List A) → In a (filter p xs) → In a xs × (p a ≡ true)
  In-filter p [] m = absurd m
  In-filter p (x ∷ xs) m = elim (Bool-cases (p x)) [
    | inl e ↦
        let m' : In a (x ∷ filter p xs) = rw e at m in
        elim m' [ inl q ↦ (inl q, rw q e) | inr k ↦ let (l, r) = In-filter p xs k in (inr l, r) ]
    | inr e ↦
        let m' : In a (filter p xs) = rw e at m in let (l, r) = In-filter p xs m' in (inr l, r)
  ]

  pub In-filter_intro : (p : A → Bool) (xs : List A) → In a xs → p a ≡ true → In a (filter p xs)
  In-filter_intro p [] m h = absurd m
  In-filter_intro p (x ∷ xs) (inl q) h = let e : p x ≡ true = rw q at h in rw e (inl q)
  In-filter_intro p (x ∷ xs) (inr m) h = elim (Bool-cases (p x)) [
    | inl e ↦ rw e (inr (In-filter_intro p xs m h))
    | inr e ↦ rw e (In-filter_intro p xs m h)
  ]

module _ {A : Type 0} where
  pub In-take : (a : A) (n : ℕ) (xs : List A) → In a (take n xs) → In a xs
  In-take a ℕ.zero xs m = absurd m
  In-take a (suc n) [] m = m
  In-take a (suc n) (x ∷ xs) (inl e) = inl e
  In-take a (suc n) (x ∷ xs) (inr m) = inr (In-take a n xs m)

  -- A prefix shorter than asked for is the whole list.
  pub take_short : (n : ℕ) (xs : List A) → length (take n xs) < n → take n xs ≡ xs
  take_short ℕ.zero xs h = absurd (omega arith)
  take_short (suc n) [] h = refl
  take_short (suc n) (x ∷ xs) h = ap (λ l. x ∷ l) (take_short n xs (omega arith))

module _ {A : Type 0} (p : A → Bool) where
  pub any-eq-true_iff : (xs : List A) → (any p xs ≡ true) ↔ ((x : A) × In x xs × (p x ≡ true))
  any-eq-true_iff [] = (λ h. cc, λ w. absurd w.1)
  any-eq-true_iff (x ∷ xs) = (
    λ h. elim (Bool-cases (p x)) [
      | inl holds ↦ (x, inl refl, holds)
      | inr fails ↦ let (y, m, e) = (any-eq-true_iff xs).0 (ground arith) in (y, inr m, e)
    ],
    λ (y, m, e). elim m [
      | inl same ↦ rw (sym same, e) refl
      | inr k ↦ ground (arith, (any-eq-true_iff xs).1 (y, k, e))
    ],
  )

  pub any-eq-false_iff : (xs : List A) → (any p xs ≡ false) ↔ ((x : A) → In x xs → p x ≡ false)
  any-eq-false_iff [] = (λ _ x m. absurd m, λ _. refl)
  any-eq-false_iff (x ∷ xs) = (
    λ h y m. elim m [
      | inl e ↦ rw e (ground arith)
      | inr k ↦ (any-eq-false_iff xs).0 (ground arith) y k
    ],
    λ h. ground (arith, h x (inl refl), (any-eq-false_iff xs).1 (λ y k. h y (inr k))),
  )

  pub filter-eq-nil_iff : (xs : List A) → (filter p xs ≡ []) ↔ (any p xs ≡ false)
  filter-eq-nil_iff [] = (λ _. refl, λ _. refl)
  filter-eq-nil_iff (x ∷ xs) = ground (arith, filter-eq-nil_iff xs)

module _ {A B : Type 0} where
  pub In-map : (f : A → B) (b : B) (xs : List A) → In b (map f xs) → (a : A) × In a xs × (b ≡ f a)
  In-map f b [] m = absurd m
  In-map f b (x ∷ xs) (inl e) = (x, inl refl, e)
  In-map f b (x ∷ xs) (inr m) = let (a, k, e) = In-map f b xs m in (a, inr k, e)

  pub In-map_intro : (f : A → B) (a : A) (xs : List A) → In a xs → In (f a) (map f xs)
  In-map_intro f a [] m = absurd m
  In-map_intro f a (x ∷ xs) (inl e) = inl (ap f e)
  In-map_intro f a (x ∷ xs) (inr m) = inr (In-map_intro f a xs m)

module _ {A B : Type 0} (P : A → Type 0) (Q : B → Type 0) (f : A → B) where
  pub map-All : (xs : List A) → ((x : A) → P x → Q (f x)) → All P xs → All Q (map f xs)
  map-All [] step h = h
  map-All (x ∷ xs) step h = (step x h.0, map-All xs step h.1)

-- `s in texts`
abbrev pub elem : String → List String → Bool
elem s = any (λ t. t == s)

pub elem_iff : (s : String) (texts : List String) → (elem s texts ≡ true) ↔ In s texts
elem_iff s [] = (λ h. cc, λ m. absurd m)
elem_iff s (t ∷ texts) = ground (arith, eq_iff t s, elem_iff s texts)

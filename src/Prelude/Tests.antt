-- ===== src/Prelude/Tests.antt =====
-- Boolean tests on numbers, the conditional, and case lemmas that keep the equation.
use Prim.Native.Nat.{ℕ, compare, Ordering}
use mathlib.Core.Path.{◌≡◌, refl}
use mathlib.Core.Logic.{◌⊎◌, inl, inr, ◌↔◌}
use mathlib.Core.Bool.{Bool, true, false, not, ◌||◌}
use mathlib.Core.Option.{Option, none, some}
use native.Mathlib.Omega.{arith}

abbrev pub ltb : ℕ → ℕ → Bool
ltb a b = elim (compare a b) [ Ordering.lt ↦ true | _ ↦ false ]

abbrev pub leb : ℕ → ℕ → Bool
leb a b = elim (compare a b) [ Ordering.gt ↦ false | _ ↦ true ]

abbrev pub eqb : ℕ → ℕ → Bool
eqb a b = elim (compare a b) [ Ordering.eq ↦ true | _ ↦ false ]

infix 1 if◌then◌else◌
abbrev pub if◌then◌else◌ {ℓ} : {A : Type ℓ} → Bool → A → A → A
if true then x else y = x
if false then x else y = y

pub Bool-cases : (b : Bool) → (b ≡ true) ⊎ (b ≡ false)
Bool-cases true = inl refl
Bool-cases false = inr refl

module _ {ℓ} {A : Type ℓ} where
  pub Option-cases : (o : Option A) → (o ≡ none) ⊎ ((a : A) × (o ≡ some a))
  Option-cases none = inl refl
  Option-cases (some a) = inr (a, refl)

  -- Python's `x if x is not None else default`.
  abbrev pub get_or : Option A → A → A
  get_or none d = d
  get_or (some a) d = a

  abbrev pub is_some : Option A → Bool
  is_some none = false
  is_some (some _) = true

-- A statement about the value of an optional argument, if it is there.
abbrev pub IfSome {ℓ κ} : {A : Type ℓ} → Option A → (A → Type κ) → Type κ
IfSome none P = Unit
IfSome (some a) P = P a

pub or-eq-false_iff : (a b : Bool) → ((a || b) ≡ false) ↔ ((a ≡ false) × (b ≡ false))
or-eq-false_iff a b = ground arith

-- A computation that may raise: `none` is the exception.
abbrev pub Raises {ℓ} : Type ℓ → Type ℓ
Raises A = Option A

infixl 5 ◌>>=◌
abbrev pub ◌>>=◌ {ℓ κ} : {A : Type ℓ} {B : Type κ} → Raises A → (A → Raises B) → Raises B
none >>= f = none
some a >>= f = f a

module _ {A B : Type 0} where
  pub bind-eq-some :
      (m : Raises A) (f : A → Raises B) {b : B}
      → (m >>= f) ≡ some b
      → (a : A) × (m ≡ some a) × (f a ≡ some b)
  bind-eq-some none f h = cc
  bind-eq-some (some a) f h = (a, refl, h)

  -- A step that returns, followed by one that does, is a run that returns.
  pub bind-returns :
      (m : Raises A) (f : A → Raises B) {a : A}
      → m ≡ some a
      → (b : B) × (f a ≡ some b)
      → (b : B) × ((m >>= f) ≡ some b)
  bind-returns m f e (b, h) = (b, rw e h)

module _ {A B C : Type 0} where
  pub bind_assoc :
      (m : Raises A) (f : A → Raises B) (g : B → Raises C)
      → (m >>= f >>= g) ≡ (m >>= λ a. f a >>= g)
  bind_assoc none f g = refl
  bind_assoc (some a) f g = refl

pub not-eq-true_iff : {P : Type 0} (b : Bool) → ((b ≡ false) ↔ P) → (not b ≡ true) ↔ P
not-eq-true_iff true c = (λ h. cc, λ p. cc (c.1 p))
not-eq-true_iff false c = (λ _. c.0 refl, λ _. refl)

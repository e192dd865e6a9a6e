-- ===== src/Runtime.antt =====
-- What the code asks of the interpreter. A Python `float` is any type with the operations that the
-- code applies to it; how a number is printed, and which letters have capitals, is left open too.
use ai_repo.Prelude.{
  ℕ, ◌+◌, ◌-◌, ◌*◌, ◌/◌, ◌^◌, String, Option, none, some, ◌≡◌, true, false, ◌↔◌, arith, Bool, ltb,
  leb, eqb, ℤ, pos, negsuc, if◌then◌else◌, not, get_or, List, [], ◌∷◌,
}

pub record Builtins (F : Type 0) : Type 0 where
  -- `literal m k` is the decimal m / 10^k
  pub literal : ℕ → ℕ → F
  pub add : F → F → F
  pub sub : F → F → F
  pub mul : F → F → F
  pub div : F → F → F
  pub le : F → F → Bool
  pub lt : F → F → Bool
  pub eq : F → F → Bool
  -- `float(math.ceil(x))`; `none` for the exception on NaN and on infinities
  pub ceil : F → Option F
  -- the built-in `abs`
  pub abs : F → F
  -- `round(x, n)`
  pub round : F → ℕ → F
  -- `float(n)` of an `int`
  pub of_int : ℤ → F
  -- `float(s)` of a `str`, `none` for the ValueError
  pub parse : String → Option F
  -- `str(x)` of a `float`, and of an `int`
  pub show : F → String
  pub show_int : ℤ → String
  -- `repr(s)` of a `str`, as a list prints it
  pub repr : String → String
  -- `s.upper()`
  pub upper : String → String

module _ {F : Type 0} ⦃py : Builtins F⦄ where
  abbrev pub zero_float : F
  zero_float = py.literal 0 0

  -- Python's truth value of a number
  abbrev pub truthy : F → Bool
  truthy x = not (py.eq x zero_float)

  -- `x or 0` of an optional number
  abbrev pub or_zero : Option F → F
  or_zero o = let x = get_or o zero_float in if truthy x then x else zero_float

  -- the built-in `max(a, b)` and `min(a, b)`: the second only if it is strictly better
  abbrev pub max_of : F → F → F
  max_of a b = if py.lt a b then b else a

  abbrev pub min_of : F → F → F
  min_of a b = if py.lt b a then b else a

  -- the built-in `min` of a list that is not empty
  abbrev pub min_from : F → List F → F
  min_from best [] = best
  min_from best (x ∷ xs) = min_from (min_of best x) xs

  -- the built-in `sum`, from the left
  abbrev pub sum_from : F → List F → F
  sum_from acc [] = acc
  sum_from acc (x ∷ xs) = sum_from (py.add acc x) xs

-- Laws of the comparisons. They hold of IEEE numbers, NaN included: NaN is the value that is not
-- `<=` itself, and the order is total only away from it.
pub record IsOrdered (F : Type 0) ⦃py : Builtins F⦄ : Type 0 where
  pub le_of_lt : (x y : F) → py.lt x y ≡ true → py.le x y ≡ true
  pub num_of_le : (x y : F) → py.le x y ≡ true → (py.le x x ≡ true) × (py.le y y ≡ true)
  pub le_trans : (x y z : F) → py.le x y ≡ true → py.le y z ≡ true → py.le x z ≡ true
  pub lt_of_le_lt : (x y z : F) → py.le x y ≡ true → py.lt y z ≡ true → py.lt x z ≡ true
  pub eq-eq-true_iff : (x y : F) → (py.eq x y ≡ true) ↔ ((py.le x y ≡ true) × (py.le y x ≡ true))
  pub lt-eq-false_iff :
      (x y : F) → py.le x x ≡ true → py.le y y ≡ true → (py.lt x y ≡ false) ↔ (py.le y x ≡ true)

-- Laws of the literals and of rounding. IEEE numbers keep them: no literal of the code is NaN, and
-- rounding never turns the order of two numbers round, infinities included.
pub record IsRounding (F : Type 0) ⦃py : Builtins F⦄ : Type 0 where
  pub literal_le_self : (m k : ℕ) → py.le (py.literal m k) (py.literal m k) ≡ true
  pub round_monotone :
      (x y : F) (n : ℕ) → py.le x y ≡ true → py.le (py.round x n) (py.round y n) ≡ true

-- The numbers of the concrete runs: exact thousandths, with no sign.
abbrev pub Milli : Type 0
Milli = ℕ

abbrev pub of_ℤ : ℤ → ℕ
of_ℤ (pos n) = n * 1000
of_ℤ (negsuc n) = 0

instance abbrev pub milli_builtins : Builtins Milli
milli_builtins = record {
  literal = λ m k. m * 1000 / 10 ^ k;
  add = ◌+◌;
  sub = ◌-◌;
  mul = λ a b. a * b / 1000;
  div = λ a b. a * 1000 / b;
  le = leb;
  lt = ltb;
  eq = eqb;
  ceil = λ a. some ((a + 999) / 1000 * 1000);
  abs = λ a. a;
  round = λ a n. a;
  of_int = of_ℤ;
  parse = λ s. none;
  show = λ a. "";
  show_int = λ n. "";
  repr = λ s. s;
  upper = λ s. s;
}

pub Milli-IsOrdered : IsOrdered Milli
Milli-IsOrdered = ground arith

pub Milli-IsRounding : IsRounding Milli
Milli-IsRounding = record { literal_le_self = ground arith; round_monotone = λ x y n h. h }

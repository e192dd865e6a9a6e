-- ===== src/Prelude/Int.antt =====
-- Signed integers over the native numbers, and their order by parts.
use Prim.Native.Nat.{ℕ}
use mathlib.Core.Bool.{Bool, true, false}
use ai_repo.Prelude.Tests.{eqb, ltb}

-- `negsuc n` is -(n + 1).
pub data ℤ : Type 0 where
  pos : ℕ → ℤ
  negsuc : ℕ → ℤ

abbrev pub eq_ℤ : ℤ → ℤ → Bool
eq_ℤ (pos a) (pos b) = eqb a b
eq_ℤ (negsuc a) (negsuc b) = eqb a b
eq_ℤ _ _ = false

abbrev pub lt_ℤ : ℤ → ℤ → Bool
lt_ℤ (pos a) (pos b) = ltb a b
lt_ℤ (negsuc a) (negsuc b) = ltb b a
lt_ℤ (pos a) (negsuc b) = false
lt_ℤ (negsuc a) (pos b) = true

-- Python's truth value of an `int`
abbrev pub is_nonzero : ℤ → Bool
is_nonzero n = elim (eq_ℤ n (pos 0)) [ true ↦ false | false ↦ true ]

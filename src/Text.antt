-- ===== src/Text.antt =====
-- The methods of Python's `str` that the code calls.
use Prim.Native.Char.{Char, code}
use Prim.Native.String.{◌++◌ as ◌+++◌}
use text.Mathlib.Text.{find?}
use text.Mathlib.TextLemmas.{cons-ne-nil}
use ai_repo.Prelude.{
  ℕ, String, ◌≡◌, ◌≢◌, ◌↔◌, refl, Bool, true, false, ◌&&◌, ◌||◌, List, [], ◌∷◌, leb, ltb, eqb, ◌+◌,
  if◌then◌else◌, filter, map, is_some,
}

-- `str.isspace` of one character
is_space : ℕ → Bool
is_space c =
    leb 9 c && leb c 13
    || leb 28 c && leb c 32
    || eqb c 0x85
    || eqb c 0xa0
    || eqb c 0x1680
    || leb 0x2000 c && leb c 0x200a
    || eqb c 0x2028
    || eqb c 0x2029
    || eqb c 0x202f
    || eqb c 0x205f
    || eqb c 0x3000

lstrip : String → String
unfolding is_space
lstrip String.[] = String.[]
lstrip (String.◌∷◌ c s) = let rest = lstrip s in if is_space (code c) then rest else String.◌∷◌ c s

-- Drops `c` in front of a stripped text if nothing is left behind it.
keep_unless_last : Char → String → String
unfolding is_space
keep_unless_last c String.[] = if is_space (code c) then String.[] else String.◌∷◌ c String.[]
keep_unless_last c (String.◌∷◌ d s) = String.◌∷◌ c (String.◌∷◌ d s)

rstrip : String → String
unfolding keep_unless_last
rstrip String.[] = String.[]
rstrip (String.◌∷◌ c s) = keep_unless_last c (rstrip s)

unfoldable pub strip : String → String
unfolding lstrip rstrip
strip s = rstrip (lstrip s)

lstrip_char : Char → String → String
lstrip_char a String.[] = String.[]
lstrip_char a (String.◌∷◌ c s) =
    let rest = lstrip_char a s in if eqb (code c) (code a) then rest else String.◌∷◌ c s

rstrip_char : Char → String → String
rstrip_char a String.[] = String.[]
rstrip_char a (String.◌∷◌ c s) =
    let rest = rstrip_char a s in
    elim rest [
      | String.[] ↦ if eqb (code c) (code a) then String.[] else String.◌∷◌ c String.[]
      | String.◌∷◌ d t ↦ String.◌∷◌ c (String.◌∷◌ d t)
    ]

-- `s.strip(a)` for a single character
unfoldable pub strip_char : Char → String → String
unfolding lstrip_char rstrip_char
strip_char a s = rstrip_char a (lstrip_char a s)

-- `s.replace(a, b)` for single characters
unfoldable pub replace : Char → Char → String → String
replace a b String.[] = String.[]
replace a b (String.◌∷◌ c s) = String.◌∷◌ (if eqb (code c) (code a) then b else c) (replace a b s)

on_head : Char → List String → List String
on_head c [] = String.◌∷◌ c String.[] ∷ []
on_head c (w ∷ ws) = String.◌∷◌ c w ∷ ws

-- `s.split(a)` for a single character
unfoldable pub split : Char → String → List String
unfolding on_head
split a String.[] = String.[] ∷ []
split a (String.◌∷◌ c s) =
    let rest = split a s in if eqb (code c) (code a) then String.[] ∷ rest else on_head c rest

abbrev pub non_empty : String → Bool
non_empty String.[] = false
non_empty (String.◌∷◌ c s) = true

pub non_empty_iff : (s : String) → (non_empty s ≡ true) ↔ (s ≢ "")
non_empty_iff String.[] = (λ h. cc, λ h. absurd (h refl))
non_empty_iff (String.◌∷◌ c s) = (λ h. cons-ne-nil c s, λ h. refl)

-- `part in s`
abbrev pub contains : String → String → Bool
contains part s = is_some (find? s part)

-- `len(s)`, in characters
unfoldable pub letters : String → ℕ
letters String.[] = 0
letters (String.◌∷◌ c s) = 1 + letters s

-- `any(ord(char) < 32 for char in s)`
unfoldable pub has_control : String → Bool
has_control String.[] = false
has_control (String.◌∷◌ c s) = ltb (code c) 32 || has_control s

-- `s.startswith(char)`
unfoldable pub starts_with : Char → String → Bool
starts_with a String.[] = false
starts_with a (String.◌∷◌ c s) = eqb (code c) (code a)

infixr 66 ◌⧺◌
abbrev pub ◌⧺◌ : String → String → String
s ⧺ t = s +++ t

-- `[v.strip() for v in s.replace(",", "|").split("|") if v.strip()]`
unfoldable pub split_values : String → List String
unfolding strip replace split
split_values s = filter non_empty (map strip (split "|" (replace "," "|" s)))

split_values_runs : split_values " ATX, mATX||ITX " ≡ "ATX" ∷ "mATX" ∷ "ITX" ∷ []
unfolding split_values
split_values_runs = refl

contains_runs : contains "ATX" "mATX" ≡ true
contains_runs = refl

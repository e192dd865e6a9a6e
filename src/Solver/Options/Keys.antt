-- ===== src/Solver/Options/Keys.antt =====
-- When the text keys of the option cache of backend/app/services/build_solver.py stand for one query
-- each: as long as ids have no ":" in them and none is "*".
use Prim.Native.Char.{Char, code}
use mathlib.Core.Path.{subst}
use mathlib.Core.Bool.{false≢true}
use text.Mathlib.TextLemmas.{nil-append, cons-append, append_cancel_right, cons-eq-cons}
use ai_repo.Prelude.{String, ◌≡◌, refl, sym, ap, ◌∙◌, Bool, true, not, ◌&&◌, eqb, arith}
use ai_repo.Text.{◌⧺◌}

abbrev colon : Char
colon = ":"

unfoldable pub has_no_colon : String → Bool
has_no_colon String.[] = true
has_no_colon (String.◌∷◌ c s) = not (eqb (code c) (code colon)) && has_no_colon s

not-starts_with_colon :
    (y : Char) (c : String) → has_no_colon (String.◌∷◌ y c) ≡ true → colon ≡ y → ⊥
unfolding has_no_colon
not-starts_with_colon y c k e =
    let k' : has_no_colon (String.◌∷◌ colon c) ≡ true =
      subst (λ z. has_no_colon (String.◌∷◌ z c) ≡ true) (sym e) k in
    false≢true k'

tail-has_no_colon :
    (x : Char) (a : String) → has_no_colon (String.◌∷◌ x a) ≡ true → has_no_colon a ≡ true
unfolding has_no_colon
tail-has_no_colon x a h = ground arith

-- Two texts joined by ":" to something are told apart before the ":" if they have none themselves.
pub join_inj :
    (a b c d : String)
    → has_no_colon a ≡ true
    → has_no_colon c ≡ true
    → a ⧺ String.◌∷◌ colon b ≡ c ⧺ String.◌∷◌ colon d
    → (a ≡ c) × (b ≡ d)
join_inj String.[] b String.[] d h k e =
    (refl, (cons-eq-cons.0 (sym (nil-append _) ∙ e ∙ nil-append _)).1)
join_inj String.[] b (String.◌∷◌ y c) d h k e =
    absurd
      (not-starts_with_colon y c k (cons-eq-cons.0 (sym (nil-append _) ∙ e ∙ cons-append y c _)).0)
join_inj (String.◌∷◌ x a) b String.[] d h k e = absurd (
    not-starts_with_colon x a h (cons-eq-cons.0 (sym (nil-append _) ∙ sym e ∙ cons-append x a _)).0)
join_inj (String.◌∷◌ x a) b (String.◌∷◌ y c) d h k e =
    let (head, tail) = cons-eq-cons.0 (sym (cons-append x a _) ∙ e ∙ cons-append y c _) in
    let (same, rest) = join_inj a b c d (tail-has_no_colon x a h) (tail-has_no_colon y c k) tail in
    (cons-eq-cons.1 (head, same), rest)

colon-append : (s : String) → ":" ⧺ s ≡ String.◌∷◌ colon s
colon-append s = cons-append colon String.[] s ∙ ap (String.◌∷◌ colon) (nil-append s)

-- The text of a case key determines both ids.
pub case_text_inj :
    (a b c d size : String)
    → has_no_colon a ≡ true
    → has_no_colon c ≡ true
    → a ⧺ ":" ⧺ b ⧺ ":" ⧺ size ≡ c ⧺ ":" ⧺ d ⧺ ":" ⧺ size
    → (a ≡ c) × (b ≡ d)
case_text_inj a b c d size h k e =
    let e' : a ⧺ String.◌∷◌ colon (b ⧺ ":" ⧺ size) ≡ c ⧺ String.◌∷◌ colon (d ⧺ ":" ⧺ size) =
      rw (← colon-append (b ⧺ ":" ⧺ size), ← colon-append (d ⧺ ":" ⧺ size)) e in
    let (same, rest) = join_inj a _ c _ h k e' in (same, append_cancel_right b d (":" ⧺ size) rest)

-- The text of a motherboard key determines the id, whatever it is.
pub motherboard_text_inj : (a c size : String) → a ⧺ ":" ⧺ size ≡ c ⧺ ":" ⧺ size → a ≡ c
motherboard_text_inj a c size e = append_cancel_right a c (":" ⧺ size) e

-- ===== src/Solver/Parts/Kinds.antt =====
-- The dictionaries of parts of backend/app/services/build_solver.py, read after a write.
use mathlib.Core.Bool.{false≢true}
use ai_repo.Prelude.{
  ℕ, zero, suc, ◌≡◌, refl, sym, ap, ◌∙◌, some, true, false, [], ◌∷◌, arith, eqb, if◌then◌else◌,
  Bool-cases, inl, inr,
}
use ai_repo.Domain.{ComponentKind, ComponentNode}
use ai_repo.Solver.Parts.{Parts, part, with_part, kind_index, same_kind}

kind_of : ℕ → ComponentKind
kind_of zero = ComponentKind.cpu
kind_of (suc zero) = ComponentKind.gpu
kind_of (suc (suc zero)) = ComponentKind.motherboard
kind_of (suc (suc (suc zero))) = ComponentKind.ram
kind_of (suc (suc (suc (suc zero)))) = ComponentKind.case
kind_of (suc (suc (suc (suc (suc zero))))) = ComponentKind.cooler
kind_of (suc (suc (suc (suc (suc (suc zero)))))) = ComponentKind.storage
kind_of (suc (suc (suc (suc (suc (suc (suc n))))))) = ComponentKind.psu

kind_of-kind_index : (k : ComponentKind) → kind_of (kind_index k) ≡ k
unfolding kind_of kind_index
kind_of-kind_index ComponentKind.cpu = refl
kind_of-kind_index ComponentKind.gpu = refl
kind_of-kind_index ComponentKind.motherboard = refl
kind_of-kind_index ComponentKind.ram = refl
kind_of-kind_index ComponentKind.case = refl
kind_of-kind_index ComponentKind.cooler = refl
kind_of-kind_index ComponentKind.storage = refl
kind_of-kind_index ComponentKind.psu = refl

eqb→≡ : (a b : ℕ) → eqb a b ≡ true → a ≡ b
eqb→≡ a b h = ground arith

eqb_refl : (a : ℕ) → eqb a a ≡ true
eqb_refl a = ground arith

pub same_kind→≡ : (a b : ComponentKind) → same_kind a b ≡ true → a ≡ b
unfolding same_kind
same_kind→≡ a b h =
    sym (kind_of-kind_index a)
    ∙ ap kind_of (eqb→≡ (kind_index a) (kind_index b) h)
    ∙ kind_of-kind_index b

pub same_kind_refl : (a : ComponentKind) → same_kind a a ≡ true
unfolding same_kind
same_kind_refl a = eqb_refl (kind_index a)

-- A key found behind another key is not that key.
other_kind :
    (kind j other : ComponentKind)
    → same_kind j kind ≡ false
    → same_kind j other ≡ true
    → same_kind kind other ≡ false
other_kind kind j other e k = elim (Bool-cases (same_kind kind other)) [
  | inl same ↦
      let j≡kind = same_kind→≡ j other k ∙ sym (same_kind→≡ kind other same) in
      absurd (false≢true (sym e ∙ ap (λ x. same_kind x kind) j≡kind ∙ same_kind_refl kind))
  | inr h ↦ h
]

module _ {F : Type 0} where
  -- Reading a key after `{**parts, kind: node}`.
  pub part-with_part :
      (kind other : ComponentKind) (node : ComponentNode F) (parts : Parts F)
      → part other (with_part kind node parts)
        ≡ (if same_kind kind other then some node else part other parts)
  unfolding part with_part
  part-with_part kind other node [] = refl
  part-with_part kind other node ((j, m) ∷ parts) = elim (Bool-cases (same_kind j kind)) [
    | inl e ↦ let replaced = same_kind→≡ j kind e in rw (e, replaced) (ground arith)
    | inr e ↦ elim (Bool-cases (same_kind j other)) [
      | inl k ↦ rw (e, k, other_kind kind j other e k) refl
      | inr k ↦ rw (e, k) (part-with_part kind other node parts)
    ]
  ]

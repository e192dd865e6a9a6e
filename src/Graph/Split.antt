-- ===== src/Graph/Split.antt =====
-- `_split_properties` of backend/app/graph/repository.py, read by key.
use Prim.Native.Char.{Char, code}
use text.Mathlib.TextLemmas.{nil-append, cons-append, append_cancel_left, cons-eq-cons}
use text.Mathlib.TextEquality.{Char-path, eq_iff}
use ai_repo.Prelude.{
  get_or, String, ◌≡◌, refl, sym, ap, ◌∙◌, Option, none, some, true, false, [], ◌∷◌, arith,
  Bool-cases, Option-cases, inl, inr, eqb, ◌==◌, eq_iff, if◌then◌else◌,
}
use ai_repo.Domain.{Properties, Value, lookup}
use ai_repo.Text.{◌⧺◌}
use ai_repo.Graph.{after_prefix, Groups, put, split_properties}

after_prefix-some : (p s : String) {k : String} → after_prefix p s ≡ some k → s ≡ p ⧺ k
unfolding after_prefix
after_prefix-some String.[] s e = ap (λ o. get_or o s) e ∙ sym (nil-append _)
after_prefix-some (String.◌∷◌ c p) String.[] e = cc
after_prefix-some (String.◌∷◌ c p) (String.◌∷◌ d s) e = elim (Bool-cases (eqb (code c) (code d))) [
  | inl h ↦
      let same : c ≡ d = Char-path c d (ground arith) in
      cons-eq-cons.1 (sym same, after_prefix-some p s (rw h at e)) ∙ sym (cons-append c p _)
  | inr h ↦ cc (rw h at e)
]

after_prefix-append : (p k : String) → after_prefix p (p ⧺ k) ≡ some k
unfolding after_prefix
after_prefix-append String.[] k = ap some (nil-append k)
after_prefix-append (String.◌∷◌ c p) k =
    let same : eqb (code c) (code c) ≡ true = ground arith in
    rw (cons-append c p k, same) (after_prefix-append p k)

-- A text starts with one letter only.
apart :
    (c d : Char) (p q s : String) {k : String}
    → eqb (code c) (code d) ≡ false
    → after_prefix (String.◌∷◌ d q) s ≡ some k
    → after_prefix (String.◌∷◌ c p) s ≡ none
unfolding after_prefix
apart c d p q String.[] n e = refl
apart c d p q (String.◌∷◌ x s) n e = elim (Bool-cases (eqb (code d) (code x))) [
  | inl h ↦ let other : eqb (code c) (code x) ≡ false = ground arith in rw other refl
  | inr h ↦ cc (rw h at e)
]

-- A prefix put before two texts does not change whether they are equal.
same_prefix : (p a b : String) → (p ⧺ a == p ⧺ b) ≡ (a == b)
same_prefix p a b = elim (Bool-cases (a == b)) [
  | inl h ↦
      let same : a ≡ b = (eq_iff a b).0 h in
      rw h ((eq_iff (p ⧺ a) (p ⧺ b)).1 (ap (λ s. p ⧺ s) same))
  | inr h ↦ elim (Bool-cases (p ⧺ a == p ⧺ b)) [
    | inl both ↦
        let same : a ≡ b = append_cancel_left p a b ((eq_iff (p ⧺ a) (p ⧺ b)).0 both) in
        cc ((eq_iff a b).1 same)
    | inr differ ↦ differ ∙ sym h
  ]
]

module _ {F : Type 0} where
  -- What one pair of the node leaves to be found under `k` in the group of the prefix `p`.
  unfoldable found : String → String → Value F → String → Option (Value F) → Option (Value F)
  found p key v k rest = elim (after_prefix p key) [
    | some j ↦ if j == k then some v else rest
    | none ↦ rest
  ]

  found-append :
      (p key : String) (v : Value F) (k : String) (rest : Option (Value F))
      → found p key v k rest ≡ (if key == p ⧺ k then some v else rest)
  unfolding found
  found-append p key v k rest = elim (Option-cases (after_prefix p key)) [
    | inl h ↦ elim (Bool-cases (key == p ⧺ k)) [
      | inl same ↦ cc (h, after_prefix-append p k, (eq_iff key (p ⧺ k)).0 same)
      | inr differ ↦ rw (h, found, differ) refl
    ]
    | inr (j, h) ↦
        let key_is : key ≡ p ⧺ j = after_prefix-some p key h in
        rw (h, found, key_is, same_prefix p j k) refl
  ]

  -- Each group after one turn of the loop: no name has two of the prefixes, so the order of the tests does not matter.
  put-found :
      (key : String) (v : Value F) (groups : Groups F) (k : String)
      → (lookup k (put key v groups).specs ≡ found "spec_" key v k (lookup k groups.specs))
        × (lookup k (put key v groups).dimensions
            ≡ found "dim_" key v k (lookup k groups.dimensions))
        × (lookup k (put key v groups).bandwidth
            ≡ found "bandwidth_" key v k (lookup k groups.bandwidth))
        × (lookup k (put key v groups).power ≡ found "power_" key v k (lookup k groups.power))
  unfolding found put lookup
  put-found key v groups k = elim (Option-cases (after_prefix "spec_" key)) [
    | inr (j, spec) ↦
        let no_dim = apart "d" "s" "im_" "pec_" key refl spec in
        let no_band = apart "b" "s" "andwidth_" "pec_" key refl spec in
        let no_power = apart "p" "s" "ower_" "pec_" key refl spec in
        rw (spec, no_dim, no_band, no_power, put, found) (refl, refl, refl, refl)
    | inl no_spec ↦ elim (Option-cases (after_prefix "dim_" key)) [
      | inr (j, dim) ↦
          let no_band = apart "b" "d" "andwidth_" "im_" key refl dim in
          let no_power = apart "p" "d" "ower_" "im_" key refl dim in
          rw (no_spec, dim, no_band, no_power, put, found) (refl, refl, refl, refl)
      | inl no_dim ↦ elim (Option-cases (after_prefix "bandwidth_" key)) [
        | inr (j, band) ↦
            let no_power = apart "p" "b" "ower_" "andwidth_" key refl band in
            rw (no_spec, no_dim, band, no_power, put, found) (refl, refl, refl, refl)
        | inl no_band ↦ elim (Option-cases (after_prefix "power_" key)) [
          | inl no_power ↦
              rw (no_spec, no_dim, no_band, no_power, put, found) (refl, refl, refl, refl)
          | inr (j, power) ↦
              rw (no_spec, no_dim, no_band, power, put, found) (refl, refl, refl, refl)
        ]
      ]
    ]
  ]

  -- For every map of a node's properties and every name: the group `specs` that `_split_properties` makes holds under the name
  -- what the node holds under the name with `spec_` before it, and nothing else; likewise `dimensions` with `dim_`, `bandwidth`
  -- with `bandwidth_` and `power` with `power_`.
  pub split-reads :
      (properties : Properties F) (k : String)
      → (lookup k (split_properties properties).specs ≡ lookup ("spec_" ⧺ k) properties)
        × (lookup k (split_properties properties).dimensions ≡ lookup ("dim_" ⧺ k) properties)
        × (lookup k (split_properties properties).bandwidth ≡ lookup ("bandwidth_" ⧺ k) properties)
        × (lookup k (split_properties properties).power ≡ lookup ("power_" ⧺ k) properties)
  unfolding split_properties lookup
  split-reads [] k = (refl, refl, refl, refl)
  split-reads ((key, v) ∷ properties) k =
      let (specs, dims, bands, powers) = split-reads properties k in
      let (spec_turn, dim_turn, band_turn, power_turn) =
        put-found key v (split_properties properties) k in
      (
        spec_turn
            ∙ found-append "spec_" key v k _
            ∙ ap (λ r. if key == "spec_" ⧺ k then some v else r) specs,
        dim_turn
            ∙ found-append "dim_" key v k _
            ∙ ap (λ r. if key == "dim_" ⧺ k then some v else r) dims,
        band_turn
            ∙ found-append "bandwidth_" key v k _
            ∙ ap (λ r. if key == "bandwidth_" ⧺ k then some v else r) bands,
        power_turn
            ∙ found-append "power_" key v k _
            ∙ ap (λ r. if key == "power_" ⧺ k then some v else r) powers,
      )

-- A name with none of the four prefixes.
abbrev pub IsUnprefixed : String → Type 0
IsUnprefixed k =
    (after_prefix "spec_" k ≡ none)
    × (after_prefix "dim_" k ≡ none)
    × (after_prefix "bandwidth_" k ≡ none)
    × (after_prefix "power_" k ≡ none)

-- A name that has a prefix is not a name that has none.
differs :
    (p key k : String) {j : String}
    → after_prefix p key ≡ some j
    → after_prefix p k ≡ none
    → (key == k) ≡ false
differs p key k h plain = elim (Bool-cases (key == k)) [
  | inl same ↦ cc ((eq_iff key k).0 same)
  | inr differ ↦ differ
]

module _ {F : Type 0} where
  raw-put :
      (key : String) (v : Value F) (groups : Groups F) (k : String)
      → IsUnprefixed k
      → lookup k (put key v groups).raw ≡ (if key == k then some v else lookup k groups.raw)
  unfolding put lookup
  raw-put key v groups k (spec, dim, band, power) = elim (Option-cases (after_prefix "spec_" key)) [
    | inr (j, h) ↦ rw (h, put, differs "spec_" key k h spec) refl
    | inl no_spec ↦ elim (Option-cases (after_prefix "dim_" key)) [
      | inr (j, h) ↦ rw (no_spec, h, put, differs "dim_" key k h dim) refl
      | inl no_dim ↦ elim (Option-cases (after_prefix "bandwidth_" key)) [
        | inr (j, h) ↦ rw (no_spec, no_dim, h, put, differs "bandwidth_" key k h band) refl
        | inl no_band ↦ elim (Option-cases (after_prefix "power_" key)) [
          | inr (j, h) ↦ rw (no_spec, no_dim, no_band, h, put, differs "power_" key k h power) refl
          | inl no_power ↦ rw (no_spec, no_dim, no_band, no_power, put) refl
        ]
      ]
    ]
  ]

  -- For every map of a node's properties and every name with none of the four prefixes: `raw` holds under the name what the
  -- node holds under it.
  pub split-keeps :
      (properties : Properties F) (k : String)
      → IsUnprefixed k
      → lookup k (split_properties properties).raw ≡ lookup k properties
  unfolding split_properties lookup
  split-keeps [] k plain = refl
  split-keeps ((key, v) ∷ properties) k plain =
      raw-put key v (split_properties properties) k plain
      ∙ ap (λ r. if key == k then some v else r) (split-keeps properties k plain)

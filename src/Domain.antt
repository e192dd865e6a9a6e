-- ===== src/Domain.antt =====
-- backend/app/models/domain.py: component kinds, the user's selection, and graph nodes with their
-- loosely typed properties.
use ai_repo.Prelude.{
  String, Option, none, some, Bool, true, false, ◌&&◌, List, [], ◌∷◌, ℤ, eq_ℤ, pos, ◌==◌,
  if◌then◌else◌, not, filter, map, somes, get_or,
}
use ai_repo.Runtime.{Builtins, truthy}
use ai_repo.Text.{split_values, non_empty, ◌⧺◌}

pub data ComponentKind : Type 0 where
  cpu gpu motherboard ram case cooler storage psu : ComponentKind

-- A property value of a graph node: a scalar, or a list of scalars.
pub data Scalar (F : Type 0) : Type 0 where
  flag : Bool → Scalar F
  int : ℤ → Scalar F
  real : F → Scalar F
  text : String → Scalar F

pub data Value (F : Type 0) : Type 0 where
  null : Value F
  scalar : Scalar F → Value F
  items : List (Scalar F) → Value F

-- Python's `dict` with string keys. A missing key reads as `None`, as `dict.get` does.
module _ {V : Type 0} where
  unfoldable pub lookup : String → List (String × V) → Option V
  lookup k [] = none
  lookup k ((j, v) ∷ m) = if j == k then some v else lookup k m

abbrev pub Properties : Type 0 → Type 0
Properties F = List (String × Value F)

pub record ComponentNode (F : Type 0) : Type 0 where
  pub id : String
  pub kind : ComponentKind
  pub name : String
  pub brand : Option String
  pub price_usd : Option F
  pub specs : Properties F
  pub dimensions : Properties F
  pub bandwidth : Properties F
  pub power : Properties F
  pub raw : Properties F

-- The first argument of `number`: which dictionary of the node is read.
pub data Group : Type 0 where
  specs dimensions bandwidth power raw : Group

module _ {F : Type 0} where
  abbrev pub group_of : ComponentNode F → Group → Properties F
  group_of n Group.specs = n.specs
  group_of n Group.dimensions = n.dimensions
  group_of n Group.bandwidth = n.bandwidth
  group_of n Group.power = n.power
  group_of n Group.raw = n.raw

  -- `data.get(key)`, with `None` for a missing key
  unfoldable pub property : ComponentNode F → Group → String → Value F
  property n g key = get_or (lookup key (group_of n g)) null

  -- `data.get(key, "")`: only a missing key gives the default
  unfoldable pub property_or_empty : ComponentNode F → Group → String → Value F
  property_or_empty n g key = get_or (lookup key (group_of n g)) (scalar (text ""))

-- `", ".join(words)`
join_comma : List String → String
join_comma [] = ""
join_comma (w ∷ []) = w
join_comma (w ∷ v ∷ ws) = w ⧺ ", " ⧺ join_comma (v ∷ ws)

module _ {F : Type 0} ⦃py : Builtins F⦄ where
  -- `float(value)`; `none` where it raises
  unfoldable pub float_of : Value F → Option F
  float_of null = none
  float_of (items _) = none
  float_of (scalar (flag b)) = some (py.of_int (pos (if b then 1 else 0)))
  float_of (scalar (int n)) = some (py.of_int n)
  float_of (scalar (real x)) = some x
  float_of (scalar (text s)) = py.parse s

  -- `ComponentNode.number(group, key, default)`
  unfoldable pub number : ComponentNode F → Group → String → Option F → Option F
  unfolding float_of property
  number n g key default = elim (float_of (property n g key)) [ none ↦ default | some x ↦ some x ]

  unfoldable pub scalar_str : Scalar F → String
  scalar_str (flag true) = "True"
  scalar_str (flag false) = "False"
  scalar_str (int n) = py.show_int n
  scalar_str (real x) = py.show x
  scalar_str (text s) = s

  scalar_repr : Scalar F → String
  scalar_repr (text s) = py.repr s
  scalar_repr (flag b) = scalar_str (flag b)
  scalar_repr (int n) = scalar_str (int n)
  scalar_repr (real x) = scalar_str (real x)

  -- `str(value)`
  unfoldable pub str : Value F → String
  unfolding scalar_str scalar_repr join_comma
  str null = "None"
  str (scalar s) = scalar_str s
  str (items ss) = "[" ⧺ join_comma (map scalar_repr ss) ⧺ "]"

  -- A scalar as a number, where Python compares it as one.
  numeric : Scalar F → Option F
  numeric (flag b) = some (py.of_int (pos (if b then 1 else 0)))
  numeric (int n) = some (py.of_int n)
  numeric (real x) = some x
  numeric (text s) = none

  scalar_eq : Scalar F → Scalar F → Bool
  unfolding numeric
  scalar_eq (text s) (text t) = s == t
  scalar_eq (int m) (int n) = eq_ℤ m n
  scalar_eq a b = elim (numeric a) [
    | none ↦ false
    | some x ↦ elim (numeric b) [ none ↦ false | some y ↦ py.eq x y ]
  ]

  list_eq : List (Scalar F) → List (Scalar F) → Bool
  unfolding scalar_eq
  list_eq [] [] = true
  list_eq (a ∷ as') (b ∷ bs) = scalar_eq a b && list_eq as' bs
  list_eq _ _ = false

  -- `a == b` of two property values
  unfoldable pub value_eq : Value F → Value F → Bool
  unfolding scalar_eq list_eq
  value_eq null null = true
  value_eq (scalar a) (scalar b) = scalar_eq a b
  value_eq (items as') (items bs) = list_eq as' bs
  value_eq _ _ = false

  -- `[str(v) for v in raw] if isinstance(raw, list) else split_values(str(raw))`
  unfoldable pub split_spec_value : Value F → List String
  unfolding scalar_str str
  split_spec_value (items ss) = map scalar_str ss
  split_spec_value null = split_values (str null)
  split_spec_value (scalar s) = split_values (str (scalar s))

  -- Python's truth value of a property
  unfoldable pub value_truthy : Value F → Bool
  value_truthy null = false
  value_truthy (items []) = false
  value_truthy (items (s ∷ ss)) = true
  value_truthy (scalar (flag b)) = b
  value_truthy (scalar (int n)) = not (eq_ℤ n (pos 0))
  value_truthy (scalar (real x)) = truthy x
  value_truthy (scalar (text s)) = non_empty s

  -- `_first_known_number(component, fields)` with no default
  unfoldable pub first_known_number : ComponentNode F → List (Group × String) → Option F
  first_known_number n [] = none
  first_known_number n ((g, key) ∷ fields) = elim (number n g key none) [
    | none ↦ first_known_number n fields
    | some x ↦ some x
  ]

abbrev pub power_draw_fields : List (Group × String)
power_draw_fields =
    (Group.power, "board_power_w")
    ∷ (Group.power, "tdp_w")
    ∷ (Group.power, "peak_w")
    ∷ (Group.power, "fan_power_w")
    ∷ []

abbrev pub psu_wattage_fields : List (Group × String)
psu_wattage_fields = (Group.specs, "continuous_wattage") ∷ (Group.power, "12v_w") ∷ []

pub record SelectedComponents : Type 0 where
  pub cpu_id : Option String
  pub gpu_id : Option String
  pub motherboard_id : Option String
  pub ram_id : Option String
  pub case_id : Option String
  pub cooler_id : Option String
  pub storage_id : Option String
  pub psu_id : Option String

-- The eight slots, in the order of the tuples in the code.
abbrev pub slots : SelectedComponents → List (Option String)
slots s =
    s.cpu_id ∷ s.gpu_id ∷ s.motherboard_id ∷ s.ram_id ∷ s.case_id ∷ s.cooler_id ∷ s.storage_id
    ∷ s.psu_id ∷ []

-- `SelectedComponents.ids`: an empty text is falsy and is dropped like `None`.
unfoldable pub ids : SelectedComponents → List String
ids s = filter non_empty (somes (slots s))

-- ===== src/Graph.antt =====
-- backend/app/graph/repository.py: how rows of the graph become nodes and options. The queries run in
-- Neo4j and are left to the record of answers of Repository.
pub mod Split
use ai_repo.Prelude.{
  ℕ, String, Option, none, some, Bool, true, false, List, [], ◌∷◌, ◌++◌, if◌then◌else◌, eqb, get_or,
  Raises, ◌>>=◌, somes, filter, ◌==◌,
}
use ai_repo.Domain.{ComponentKind, ComponentNode, Properties, Value, Scalar, null, lookup, str}
use ai_repo.Runtime.{Builtins}
use Prim.Native.Char.{Char, code}

-- `s.removeprefix(prefix)`, where `s` starts with it
unfoldable pub after_prefix : String → String → Option String
after_prefix String.[] s = some s
after_prefix (String.◌∷◌ c p) String.[] = none
after_prefix (String.◌∷◌ c p) (String.◌∷◌ d s) =
    let rest = after_prefix p s in if eqb (code c) (code d) then rest else none

pub record Groups (F : Type 0) : Type 0 where
  pub specs : Properties F
  pub dimensions : Properties F
  pub bandwidth : Properties F
  pub power : Properties F
  pub raw : Properties F

module _ {F : Type 0} where
  -- One turn of the loop of `_split_properties`; the keys of `properties` are distinct.
  unfoldable pub put : String → Value F → Groups F → Groups F
  put key v groups = elim (after_prefix "spec_" key) [
    | some k ↦ record groups { specs = (k, v) ∷ groups.specs }
    | none ↦ elim (after_prefix "dim_" key) [
      | some k ↦ record groups { dimensions = (k, v) ∷ groups.dimensions }
      | none ↦ elim (after_prefix "bandwidth_" key) [
        | some k ↦ record groups { bandwidth = (k, v) ∷ groups.bandwidth }
        | none ↦ elim (after_prefix "power_" key) [
          | some k ↦ record groups { power = (k, v) ∷ groups.power }
          | none ↦ record groups { raw = (key, v) ∷ groups.raw }
        ]
      ]
    ]
  ]

  -- `_split_properties`
  unfoldable pub split_properties : Properties F → Groups F
  unfolding put
  split_properties [] = record { specs = []; dimensions = []; bandwidth = []; power = []; raw = [] }
  split_properties ((key, v) ∷ properties) = put key v (split_properties properties)

-- ===== src/Repository.antt =====
-- What the services ask of `Neo4jComponentRepository` (backend/app/graph/repository.py). The graph
-- database stands behind it, so a repository is a record of answers: a run sees one state of the
-- graph, and a query that raises is outside the model.
use ai_repo.Prelude.{ℕ, String, Option, Bool, List}
use ai_repo.Domain.{ComponentKind, ComponentNode, SelectedComponents}

pub record Repository (F : Type 0) : Type 0 where
  -- a `dict` from ids to nodes, in its order of insertion
  pub components_by_ids : List String → List (String × ComponentNode F)
  pub components_by_kind : ComponentKind → ℕ → List (ComponentNode F)
  -- the truth values of the answers' fields "compatible", "memory_type_supported",
  -- "qvl_validated" and "supported"
  pub socket_match : String → String → Bool
  pub memory_type_supported : String → String → Bool
  pub qvl_validated : String → String → Bool
  pub cooler_socket_support : String → String → Bool
  -- the fields "source_id" and "target_id" of each row
  pub known_space_blockers : List String → List (String × String)
  -- the ids of the options: kind, selection, limit, `qvl_required`, `form_factor`
  pub component_options :
      ComponentKind → SelectedComponents → ℕ → Bool → Option String → List String

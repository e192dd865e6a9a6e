-- ===== src/Tests/Rows.antt =====
-- How a row of the graph becomes the groups of a node (backend/app/graph/repository.py): a concrete row.
use ai_repo.Prelude.{◌≡◌, [], ◌∷◌, pos}
use ai_repo.Runtime.{Milli}
use ai_repo.Domain.{Properties, scalar, int, text, lookup}
use ai_repo.Text.{◌⧺◌}
use ai_repo.Graph.{split_properties}
use ai_repo.Graph.Split.{split-reads}

abbrev row : Properties Milli
row =
    ("name", scalar (text "A board"))
    ∷ ("spec_socket", scalar (text "AM5"))
    ∷ ("dim_length", scalar (int (pos 305)))
    ∷ ("power_total", scalar (int (pos 60)))
    ∷ []

split-reads_example :
    (lookup "length" (split_properties row).specs ≡ lookup ("spec_" ⧺ "length") row)
    × (lookup "length" (split_properties row).dimensions ≡ lookup ("dim_" ⧺ "length") row)
    × (lookup "length" (split_properties row).bandwidth ≡ lookup ("bandwidth_" ⧺ "length") row)
    × (lookup "length" (split_properties row).power ≡ lookup ("power_" ⧺ "length") row)
split-reads_example = split-reads row "length"

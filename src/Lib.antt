-- ===== src/Lib.antt =====
-- The core of the PC builder's back end: are the chosen parts compatible, and which complete builds
-- fit a budget.
--
-- * backend/app/models/domain.py is modelled in Domain: kinds, selections, graph nodes and their
--   loosely typed properties (`ComponentNode.number`, `SelectedComponents.ids`).
-- * backend/app/services/geometry.py is modelled in Geometry (`aabb_intersects`,
--   `volume_from_component`, `detect_collisions`); Geometry.Overlap says what the test means, and
--   Geometry.WellFormed when the volumes can be built.
-- * backend/app/services/compatibility.py is modelled in Compatibility: `CompatibilityEngine.check`
--   calls, in this order, the checks of Compatibility.Fit, Power, Bus and Space; a check is a record
--   of Compatibility.Verdict. Compatibility.Spec and Compatibility.Sound state what a valid selection
--   is and compare the verdict with it.
-- * backend/app/services/build_solver.py is modelled in Solver: partial builds and candidates in
--   Solver.Parts, `_partial_is_possible` in Solver.Feasible (Solver.Feasible.Agrees compares it with the
--   engine), `_filtered_candidates` with its cache in Solver.Options, `_search` and `_remaining_cost_floor` in Solver.Search. Solver.Search.Leaves lists
--   the builds that the pruned search comes to, without its cap, counters and cache, Solver.Search.Complete
--   relates them to the choices that lead to them, and Solver.Search.Plain is the enumeration without
--   pruning that the search is compared with.
--   The search mutates two lists, three counters and a cache: they are the record SearchState.
--   Solver.Search.Tidy holds its invariant. Solver.Score is `_load_catalog` and `_evaluate` with the
--   scores, Solver.Select the loop of `_select_multi_solution` with its cache of answers, and
--   Solver.Generate the rest of that function and the answer of `generate`, which calls all of these.
--   `_evaluate` raises at a build with no CPU or GPU; `generate` takes it as a function, since the search evaluates complete builds
--   only, where it returns.
-- * backend/app/services/performance.py is modelled in Performance: `PerformanceEngine.calculate`,
--   with the functions of numpy as the parameter Numpy.
-- * backend/app/services/user_builds.py is modelled in UserBuilds: what is stripped from and read out of
--   the payload of a saved build in UserBuilds.Payload, the comparison in UserBuilds.Compare, the watch
--   list in UserBuilds.Watchlist, saving and duplicating in UserBuilds.Save with the graph
--   repository as a parameter (BuildRepository) on the state of the database, of which nothing is
--   assumed but that it answers: user_build_repository.py is not modelled. How Python prints and tests a
--   payload is the parameter Printing, and what the pricing repository knows of a product is a function.
-- * backend/app/graph/repository.py asks Neo4j. The record Repository holds the answers of its
--   queries, as a parameter of everything that asks; one run sees one state of the graph. Graph is
--   `_split_properties`, which sorts the properties of a row into the groups of a node.
-- * backend/app/catalog/image_review.py is modelled in Catalog: Catalog.Images holds the image and
--   `_url_result`, Catalog.Images.Config the configuration from the environment, Catalog.Images.Sections and
--   Catalog.Images.Evaluate the body of `_evaluate_values`, Catalog.Review.Decide `record_decision`, and
--   Catalog.Review.Queries the questions. A session is a list of images and the reviews, newest first; Step and
--   Reach are one and any number of recorded decisions. The environment, the clock and `urlparse` are the
--   parameter Machine; times are in microseconds.
-- * backend/app/core/security.py is modelled in Access (keys, roles, `RateLimiter.allow`) and Access.Rules
--   (ENDPOINT_RULES), and `security_audit_middleware` of backend/app/main.py in Access.Gate: a request meets the
--   rate limiter, then its role is checked, then its idempotency key, then its handler runs, which is a
--   parameter (Edge) on the state of the database. Serve is one request, Serves any number of them, one after
--   another: requests that overlap in time are not modelled.
-- * backend/app/api/approvals.py and the approvals of backend/app/services/ops.py are modelled in Approvals:
--   requests of agents in Approvals.Create, decisions in Approvals.Decide. Change is one of them or an
--   audit event of another part, Changes any number. The store is the same World as in Access.Gate.
-- * backend/app/services/pricing_worker.py is modelled in Worker: the queue with its counter of unfinished
--   tasks, and the loop of the thread in two steps, up to and after `_execute`, whose outcome is a parameter.
--   Run is any order of these steps and of calls of `enqueue`. The database is taken to answer.
-- * backend/app/services/pricing_quality.py is modelled in Pricing: its tables in Pricing.Tables (the alike
--   branches on the category as rows of one table), `validate_offer` in Pricing.Validate.
-- * Prelude, Text and Runtime hold lists, Python's string functions, and floats. A float is any type
--   with the operations of the record Builtins; where a result needs an order, IsOrdered is a
--   hypothesis, which IEEE numbers satisfy, NaN included; IsRounding asks that literals are
--   numbers and that rounding is monotone, which IEEE numbers satisfy too. The tests run on exact thousandths.
--
-- An exception is `none` of an optional result. There is no fuel: the search is by recursion on the
-- list of kinds, and its loop by recursion on the candidates.
--
-- Not modelled: the texts `details` and `evidence` of a check, the sentences that explain parts and
-- builds, timings and log lines, the database and its queries, raw payloads of images, the routes and
-- request validation of FastAPI, the catalogue import, the search, classification and storage of prices,
-- the governance services, and the front end.
pub mod Prelude
pub mod Runtime
pub mod Text
pub mod Domain
pub mod Geometry
pub mod Repository
pub mod Graph
pub mod Catalog
pub mod Access
pub mod Approvals
pub mod Worker
pub mod Pricing
pub mod Compatibility
pub mod Solver
pub mod Performance
pub mod UserBuilds
pub mod Tests

-- ===== src/Solver.antt =====
-- backend/app/services/build_solver.py: `BuildSolver`. Timings, logging and the explanatory texts of
-- the answer are left out.
pub mod Parts
pub mod Feasible
pub mod Options
pub mod Search
pub mod Select
pub mod Score
pub mod Generate

-- ===== src/UserBuilds.antt =====
-- backend/app/services/user_builds.py: saved builds, their public view, comparison and watch list.
-- Calls that are only forwarded to the graph repository are left out.
pub mod Payload
pub mod Compare
pub mod Watchlist
pub mod Save

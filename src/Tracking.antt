-- ===== src/Tracking.antt =====
-- The tracking of listings: backend/app/services.py, with the comparisons of backend/app/parser.py
-- that it goes by. A listing is a row of `cars`, and its place in a project a row of `project_cars`.
pub mod Tables
pub mod Changes
pub mod Details
pub mod Reliable
pub mod Stable
pub mod Absence
pub mod Events
pub mod Counting
pub mod Missing
pub mod Availability
pub mod Upsert
pub mod Prices
pub mod Ledger
pub mod Identity

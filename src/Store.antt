-- ===== src/Store.antt =====
-- internal/store: PostgreSQL persistence. A table is the list of its rows; a statement is a function
-- on the tables, with what its constraints refuse written out.
pub mod Base
pub mod Tables
pub mod Postgres
pub mod Jobs
pub mod Strategies
pub mod Backtests
pub mod Documents
pub mod Snapshots
pub mod Listings
pub mod Candidates

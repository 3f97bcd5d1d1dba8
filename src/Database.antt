-- ===== src/Database.antt =====
-- The stores in Postgres, asb_api/db: a table is the list of its rows, and one statement is one step.
pub mod Connection
pub mod Migrations
pub mod Audit
pub mod Sessions
pub mod Usage
pub mod Limiter

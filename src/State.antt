-- ===== src/State.antt =====
-- The package `state`: the tables and the data access.
pub mod Models
pub mod Session
pub mod Database
pub mod Repository

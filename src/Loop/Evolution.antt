-- ===== src/Loop/Evolution.antt =====
-- What a whole cycle may do to the database: a relation between two sessions, one rule for each
-- step of the loop's code, and the phases by those rules.
pub mod Rows
pub mod Rules
pub mod Orders
pub mod Recover
pub mod Phases
pub mod Cycle

-- ===== src/Loop.antt =====
-- The package `loop`: the order executor and the trading cycle.
pub mod World
pub mod Idempotency
pub mod Executor
pub mod Runner
pub mod Capacity
pub mod Cycle
pub mod Evolution

-- ===== src/Core.antt =====
-- The package `core`: its data types, the gate arithmetic, the sizing and the position lifecycle.
pub mod Types
pub mod Keyed
pub mod Settings
pub mod Math
pub mod Lifecycle
pub mod Sizing

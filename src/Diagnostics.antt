-- ===== src/Diagnostics.antt =====
-- The package `diagnostics`: the anomaly rules and the parts of the snapshot that they read.
pub mod Anomalies
pub mod Snapshot

-- ===== src/Gateways.antt =====
-- The package `gateways`: the interface of a venue, and the in-memory venue of paper mode.
pub mod Venue
pub mod Ccxt
pub mod Binance
pub mod Paper

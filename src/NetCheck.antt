-- ===== src/NetCheck.antt =====
-- The service io-net-check: it dials the configured endpoints in rounds and exports the results.
pub mod Config
pub mod Metrics
pub mod Checker

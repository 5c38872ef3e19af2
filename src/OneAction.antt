-- ===== src/OneAction.antt =====
-- api-one-action: actions that one request starts.
pub mod Zdy
pub mod Routes

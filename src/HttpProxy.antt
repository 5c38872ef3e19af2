-- ===== src/HttpProxy.antt =====
-- The proxy for HTTP requests: its task scheduler.
pub mod Request
pub mod Packing
pub mod Client
pub mod Gateway
pub mod Node
pub mod Scheduler

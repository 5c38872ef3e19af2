-- ===== src/Damaku.antt =====
-- The service io-bilive-damaku: agents watch live rooms and publish what happens there, a center
-- manages the agents and aggregates their messages, and a tool washes recorded files.
pub mod Messages
pub mod Raw
pub mod Wash
pub mod Cache
pub mod Center
pub mod Agent

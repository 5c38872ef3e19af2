-- ===== src/Damaku/Agent.antt =====
-- The agent: the index of metas that it keeps, and the rooms that it watches.
pub mod Indexer
pub mod Actions
pub mod Events
pub mod Start
pub mod Status

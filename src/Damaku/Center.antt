-- ===== src/Damaku/Center.antt =====
-- The center: the manager of the agents, and the controller of their messages.
pub mod Agents
pub mod Controller
pub mod Manager
pub mod Start
pub mod Streams

-- ===== src/Damaku/Agent/Events.antt =====
-- The handler of chat events: its data, the handler, and what holds of its messages.
pub mod Data
pub mod Handle
pub mod Counters
pub mod Counted
mod Streams
mod Tests

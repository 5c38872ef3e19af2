-- ===== src/Recorder.antt =====
-- io-bilive-recorder: the watch over recording nodes.
pub mod Rooms
pub mod Exporter
mod Examples
pub mod Cdn
pub mod Sync

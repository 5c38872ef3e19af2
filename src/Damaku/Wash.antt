-- ===== src/Damaku/Wash.antt =====
-- io-bilive-damaku/cmd/wash.go: a recorded file becomes structured data.
pub mod Names
pub mod Store
pub mod Tokens
pub mod Scan
pub mod Rescan
pub mod Again
pub mod Metas
pub mod Files
mod Tests
mod ScanTests

-- ===== src/Agent.antt =====
-- The device agent (agent/internal).
pub mod Ota
pub mod Config
pub mod Queue
pub mod Jobs
pub mod Engine
mod Tests
mod QueueTests
mod JobTests
mod ConfigTests

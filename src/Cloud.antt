-- ===== src/Cloud.antt =====
-- The control plane (cloud-infra/internal).
pub mod Model
pub mod Store
pub mod Rbac
pub mod Presence
pub mod Assistant
mod Tests
pub mod Server

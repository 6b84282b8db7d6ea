-- ===== src/Core.antt =====
-- crates/core: what the agent decides, over repositories that it does not implement.
pub mod Serde
pub mod Grants
pub mod Timeline
pub mod Visible
pub mod Retrieval
pub mod ContentAccess
pub mod Projection
pub mod Engine

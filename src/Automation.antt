-- ===== src/Automation.antt =====
-- The automation service (automation/app).
pub mod Versions
pub mod Repository
pub mod Manager
pub mod Redis
pub mod Jobs
pub mod Queue
pub mod Worker
pub mod Spaces
mod Tests
pub mod PolicyRuntime
pub mod ConfigMap
pub mod Drafts
pub mod Previews
pub mod MemoryStore
pub mod PolicyApi

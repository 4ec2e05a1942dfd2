-- ===== src/Tools.antt =====
-- src/fabri/tools: the approval classes of tools and the caller's limits on them.
pub mod Approval
pub mod Policy
pub mod Limits
pub mod Classes
mod Tests

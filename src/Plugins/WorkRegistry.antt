-- ===== src/Plugins/WorkRegistry.antt =====
-- plugins/work-registry: tasks, their contexts and the evidence for them.
pub mod Store
pub mod Handlers
pub mod Transitions
pub mod Later
pub mod Creation
pub mod Writers
mod Tests

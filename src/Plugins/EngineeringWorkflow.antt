-- ===== src/Plugins/EngineeringWorkflow.antt =====
-- plugins/engineering-workflow: the run of one task, from its workspace to its review.
pub mod Gate
pub mod Progress
pub mod Caps
pub mod Events
pub mod Pipeline
pub mod Ledger
pub mod Story
pub mod Finish
pub mod Cleanup
mod Tests

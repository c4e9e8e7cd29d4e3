-- ===== src/Plugins.antt =====
-- The plugins: plugins/.
pub mod Reply
pub mod EventLog
pub mod WorkRegistry
pub mod EngineeringWorkflow
pub mod Review
pub mod Workspace
pub mod Archive
pub mod Session
pub mod ToolRunner

-- ===== src/Plugins/ToolRunner.antt =====
-- plugins/tool-runner: builds and tests, and what came of them.
pub mod Runner
pub mod Store
pub mod Handlers
pub mod Verdict
mod Tests

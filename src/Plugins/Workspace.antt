-- ===== src/Plugins/Workspace.antt =====
-- plugins/workspace: the git worktrees in which tasks are done.
pub mod Store
pub mod Best
pub mod Choice
pub mod Unordered
pub mod Git
pub mod Handlers
pub mod Later
pub mod Release
pub mod Allocation
mod Tests

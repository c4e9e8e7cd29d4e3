-- ===== src/Plugins/Session.antt =====
-- plugins/session: what a finished run leaves for a later one.
pub mod Checkpoint
pub mod Selection
pub mod Seal
pub mod Store
pub mod Handlers
pub mod Integrity
mod Tests

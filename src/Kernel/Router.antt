-- ===== src/Kernel/Router.antt =====
-- kernel/internal/router/router.go: who may call what, and what the host puts into a message.
pub mod State
pub mod Invoke
pub mod Streams
pub mod Authority
pub mod Opening
pub mod Trace
pub mod Delegations
pub mod Forgery
pub mod Publish
pub mod Ownership
pub mod Leaks
mod Tests

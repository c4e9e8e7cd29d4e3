-- ===== src/Kernel/Registry.antt =====
-- kernel/internal/registry/registry.go.
pub mod State
pub mod Health
pub mod Runtimes
pub mod Admission
pub mod Fence
pub mod Resolve
pub mod Available
pub mod Touch
pub mod Validity
pub mod Routing
pub mod Lifecycle
pub mod Trace
pub mod Leases
pub mod SingleWriter
mod Tests

-- ===== src/Kernel.antt =====
-- The kernel: kernel/internal and kernel/sdk/go.
pub mod Protocol
pub mod Manifest
pub mod Contracts
pub mod Registry
pub mod Fencing
pub mod Authz
pub mod Policy
pub mod Router

-- ===== src/Kernel/Authz.antt =====
-- kernel/internal/authz/authz.go: what the host's policy grants to plugins and clients.
pub mod Pattern
pub mod Engine

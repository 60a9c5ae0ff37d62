-- ===== src/Security.antt =====
-- src/egr/security
pub mod Rbac

-- ===== src/Authz.antt =====
-- internal/service/authz and internal/domain/authz.go: the authorization decision.
pub mod Domain
pub mod Window
pub mod Decision
pub mod Abac
pub mod Checker
pub mod Pdp

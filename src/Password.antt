-- ===== src/Password.antt =====
-- Passwords: internal/domain/entity.go and internal/service/password.
pub mod Policy
pub mod Generator
pub mod Swap
pub mod Strength

-- ===== src/Account.antt =====
-- The accounts of users: internal/domain/entity.go, the tables of internal/store/postgres/repository.go,
-- and the login of internal/api/rest/auth.go.
pub mod Admin
pub mod Barred
pub mod Data
pub mod Granted
pub mod Login
pub mod Passwords
pub mod Renewal
pub mod Single
pub mod Tables

-- ===== src/Session.antt =====
-- internal/service/session: sessions, refresh tokens and the blacklist, kept in Redis.
pub mod Data
pub mod Store
pub mod Refresh
pub mod Device
pub mod Service
pub mod Access
pub mod Frame
pub mod Branches
pub mod Reuse
pub mod Family
pub mod Revocation
pub mod Organisation
pub mod Validation
pub mod Login

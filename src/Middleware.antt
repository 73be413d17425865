-- ===== src/Middleware.antt =====
-- internal/api/middleware: the guards that a request passes.
pub mod Admin
pub mod AdminLaws
pub mod AdminRate
pub mod BruteForce
pub mod BruteForceLaws

-- ===== src/Roles.antt =====
-- Roles, their permissions and the roles of users: the tables of
-- internal/store/postgres/repository.go, and the callbacks of internal/api/rest/wfcallback that change
-- them, with the services of internal/api/rest/admin_routes.go between.
pub mod Callbacks
pub mod Grants
pub mod Regrant
pub mod Replaced
pub mod Tables

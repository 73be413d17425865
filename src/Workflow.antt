-- ===== src/Workflow.antt =====
-- The callbacks by which workflow7 applies an approved change: internal/api/rest/wfcallback, over the
-- services of internal/api/rest/admin_routes.go.
pub mod Assigned
pub mod Branches
pub mod Envelope
pub mod Lingering
pub mod Replaced
pub mod Users

-- ===== src/Audit.antt =====
-- The audit log of internal/service/audit/service.go. Entries are mirrored to the central service on the
-- side, which is left out.
pub mod Log
pub mod Paging

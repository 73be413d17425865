-- ===== src/Branch.antt =====
-- Branches, which auth7 copies from the enterprise service, and the assignments of users to them:
-- internal/service/branch, internal/service/branchsync and internal/store/postgres/branch.go.
pub mod Assignments
pub mod Data
pub mod Outage
pub mod Pages
pub mod Switch
pub mod Sync
pub mod Tombstones

-- ===== src/Manager.antt =====
-- The two-tier cache of internal/cache/manager.go. `Store` holds its code; `Requests` proves what a
-- request gives, `Populates` what it leaves in L1, `Background` what the late writes to Redis can undo. `Report` holds
-- `Stats`.
pub mod Store
pub mod Requests
pub mod Populates
pub mod Background
pub mod Report

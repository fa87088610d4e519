-- ===== src/Process.antt =====
-- The collector of processes (internal/modules/process).
pub mod Store
pub mod Reconcile
pub mod Selection
pub mod Tests

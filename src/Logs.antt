-- ===== src/Logs.antt =====
-- The collector of logs (internal/modules/logs).
pub mod Syslog
pub mod Timestamps
pub mod Severity
pub mod Multiline
pub mod Tests
